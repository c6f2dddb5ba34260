-- ===== src/Apns/Connection.antt =====
-- imessage/imessage/direct/apns/response.go, and `handlePayload` of connection.go: what the
-- connection does with a command that was read. The topics' hashes and the property lists are
-- arguments; what is started in a goroutine or logged for the caller is listed as effects.
pub mod Dispatch
use imessage_for_me.Base.{
  ℕ, zero, suc, Bool, true, false, not, ◌&&◌, ◌||◌, List, [], ◌∷◌, ◌++◌, Option, none, some, Bytes,
  equal, leb, ltb, ◌==◌, if◌then◌else◌, length,
}
use imessage_for_me.Base.Assoc.{Key, bytes_key, number_key}
use imessage_for_me.Waiting.{Waiting, receive}

-- The parts of `SendMessagePayload` that the connection reads; a UUID that is not valid is none.
pub record SendMessagePayload : Type 0 where
  pub message_uuid : Option Bytes
  pub message_id : ℕ
  pub command : ℕ
  pub raw : Bytes

pub record Connection : Type 0 where
  pub token : Bytes
  pub max_message_size : ℕ
  pub max_large_message_size : ℕ
  pub no_auto_flush : Bool
  pub response_waiters_uuid : Waiting Bytes SendMessagePayload
  pub response_waiters_id : Waiting ℕ SendMessagePayload
  pub send_ack_waiter : Option ℕ
  pub send_acks : List (ℕ × Bytes)

-- A command as `toStructAuto` returns it, with its ID. A missing token or status is none.
pub data Received : Type 0 where
  keep_alive_ack : Received
  connect_ack : Option Bytes → Bytes → ℕ → ℕ → Received
  send_message : Bytes → Bytes → Bytes → Received
  send_message_ack : Bytes → Received
  filter_topics_ack : Received
  other_payload : Received

pub data Effect : Type 0 where
  acks : Bytes → Effect
  calls_connect_error_handler : Bytes → Effect
  calls_connect_handler : Effect
  enqueues : SendMessagePayload → Effect
  flushes_queue : Effect

-- `MessageTypeFlushQueue`.
abbrev pub flush_queue : ℕ
flush_queue = 160

abbrev by_uuid : Connection → Bool × Waiting Bytes SendMessagePayload → Bool × Connection
by_uuid c (ok, ws) = (ok, record c { response_waiters_uuid = ws })

abbrev by_id : Connection → Bool × Waiting ℕ SendMessagePayload → Bool × Connection
by_id c (ok, ws) = (ok, record c { response_waiters_id = ws })

abbrev pub receive_as : Option Bytes → SendMessagePayload → Connection → Bool × Connection
receive_as (some uuid) m c = by_uuid c (receive uuid m c.response_waiters_uuid)
receive_as none m c =
    if m.message_id == 0 then (false, c) else by_id c (receive m.message_id m c.response_waiters_id)

-- `receiveResponse`.
unfoldable pub receive_response : SendMessagePayload → Connection → Bool × Connection
receive_response m c = receive_as m.message_uuid m c

abbrev or_token : Option Bytes → Bytes → Bytes
or_token none old = old
or_token (some new) old = new

abbrev or_size : ℕ → ℕ → ℕ
or_size new old = if new == 0 then old else new

-- The case of `CommandConnectAck`.
unfoldable pub handle_connect_ack :
    Option Bytes → Bytes → ℕ → ℕ → Connection → Connection × List Effect
handle_connect_ack token status max_size large_size c =
    let c' : Connection = record c { token = or_token token c.token } in
    if not (equal status (0 ∷ [])) then (c', calls_connect_error_handler status ∷ []) else (
      record c' {
        max_message_size = or_size max_size c.max_message_size;
        max_large_message_size = or_size large_size c.max_large_message_size;
      },
      calls_connect_handler ∷ [],
    )

abbrev holds : ℕ → List (ℕ × Bytes) → Bool
holds n [] = false
holds n ((m, a) ∷ as') = m == n || holds n as'

abbrev ack_to : Option ℕ → Bytes → Connection → Connection
ack_to none ack c = c
ack_to (some ch) ack c = record c {
  send_ack_waiter = none;
  send_acks = if holds ch c.send_acks then c.send_acks else (ch, ack) ∷ c.send_acks;
}

-- The case of `CommandSendMessageAck`; a channel that already holds an ack does not take another.
unfoldable pub handle_send_ack : Bytes → Connection → Connection
handle_send_ack ack c = ack_to c.send_ack_waiter ack c

abbrev flushes : Connection → Bool → List Effect
flushes c is_flush = if not c.no_auto_flush && is_flush then flushes_queue ∷ [] else []

module _ (is_ids_topic : Bytes → Bool) (parse_payload : Bytes → SendMessagePayload) where
  -- The case of `CommandSendMessage`; nothing where reading the number of the message panics.
  unfoldable pub handle_message :
      Bytes → Bytes → Bytes → Connection → Option (Connection × List Effect)
  handle_message topic id payload c =
      let m : SendMessagePayload = record (parse_payload payload) { raw = payload } in
      let (ok, c') = receive_response m c in
      if length topic == 20 && is_ids_topic topic
      then some (c, acks id ∷ [])
      else if ltb (length id) 4
      then none
      else some (c', (if ok then acks id else enqueues m) ∷ flushes c (m.command == flush_queue))

  -- `handlePayload`.
  unfoldable pub handle_payload : Received → Connection → Option (Connection × List Effect)
  handle_payload keep_alive_ack c = some (c, [])
  handle_payload (connect_ack token status max_size large_size) c =
      some (handle_connect_ack token status max_size large_size c)
  handle_payload (send_message topic id payload) c = handle_message topic id payload c
  handle_payload (send_message_ack ack) c = some (handle_send_ack ack c, [])
  handle_payload filter_topics_ack c = some (c, flushes c true)
  handle_payload other_payload c = some (c, [])
