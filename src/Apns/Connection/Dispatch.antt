-- ===== src/Apns/Connection/Dispatch.antt =====
-- Where an incoming message goes, and what a send is told.
use imessage_for_me.Base.{
  ◌≡◌, ◌↔◌, refl, ap, Bool, true, false, not, ◌&&◌, [], ◌∷◌, Option, none, some, Bytes, ltb, ◌==◌,
  if◌then◌else◌, length, arith, Bool-cases, inl, inr, is_some,
}
use imessage_for_me.Base.Assoc.{Key, bytes_key, number_key, find}
use imessage_for_me.Waiting.{Channel, Waiting, receive, send_to}
use imessage_for_me.Apns.Connection.{
  SendMessagePayload, Connection, send_message, acks, enqueues, flush_queue, flushes_queue,
  receive_as, receive_response, handle_message, handle_payload,
}

abbrev waits_as : Option Bytes → SendMessagePayload → Connection → Bool
waits_as none m c =
    not (m.message_id == 0) && is_some (find m.message_id c.response_waiters_id.waiters)
waits_as (some uuid) m c = is_some (find uuid c.response_waiters_uuid.waiters)

-- Whether a request waits for the message.
unfoldable pub has_waiter : SendMessagePayload → Connection → Bool
has_waiter m c = waits_as m.message_uuid m c

send_to_answer :
    {K : Type 0} {V : Type 0} ⦃k : Key K⦄ (o : Option (Channel K)) (key : K) (m : V)
    (s : Waiting K V)
    → (send_to o key m s).0 ≡ is_some o
send_to_answer none key m s = refl
send_to_answer (some ch) key m s = refl

send_to_nothing :
    {K : Type 0} {V : Type 0} ⦃k : Key K⦄ (o : Option (Channel K)) (key : K) (m : V)
    (s : Waiting K V)
    → is_some o ≡ false
    → (send_to o key m s).1 ≡ s
send_to_nothing none key m s h = refl
send_to_nothing (some ch) key m s h = absurd (ground (arith, h))

receive_answer :
    {K : Type 0} {V : Type 0} ⦃k : Key K⦄ (key : K) (m : V) (s : Waiting K V)
    → (receive key m s).0 ≡ is_some (find key s.waiters)
unfolding receive
receive_answer key m s = send_to_answer (find key s.waiters) key m s

receive_nothing :
    {K : Type 0} {V : Type 0} ⦃k : Key K⦄ (key : K) (m : V) (s : Waiting K V)
    → is_some (find key s.waiters) ≡ false
    → (receive key m s).1 ≡ s
unfolding receive
receive_nothing key m s h = send_to_nothing (find key s.waiters) key m s h

receive_as-answer :
    (o : Option Bytes) (m : SendMessagePayload) (c : Connection)
    → ((receive_as o m c).0 ≡ waits_as o m c) × (waits_as o m c ≡ false → (receive_as o m c).1 ≡ c)
receive_as-answer (some uuid) m c = (
  receive_answer uuid m c.response_waiters_uuid,
  λ h.
      ap (λ ws. record c { response_waiters_uuid = ws })
        (receive_nothing uuid m c.response_waiters_uuid h),
)
receive_as-answer none m c = elim (Bool-cases (m.message_id == 0)) [
  | inl z ↦ rw z (refl, λ h. refl)
  | inr z ↦ rw z (
    receive_answer m.message_id m c.response_waiters_id,
    λ h.
        ap (λ ws. record c { response_waiters_id = ws })
          (receive_nothing m.message_id m c.response_waiters_id h),
  )
]

module _ (is_ids_topic : Bytes → Bool) (parse_payload : Bytes → SendMessagePayload) where
  abbrev pub incoming : Bytes → SendMessagePayload
  incoming payload = record (parse_payload payload) { raw = payload }

  abbrev is_ids : Bytes → Bool
  is_ids topic = length topic == 20 && is_ids_topic topic

  -- A message of another topic than that of the identity service, with a number of four bytes at
  -- least: if a request waits for it, it is handed to that request and acknowledged; otherwise it
  -- is queued, once, and the connection stays as it is. Only a message to flush the queue has the
  -- queue flushed.
  pub handle_payload-dispatch :
      (topic id payload : Bytes) (c : Connection)
      → is_ids topic ≡ false
      → ltb (length id) 4 ≡ false
      → handle_payload is_ids_topic parse_payload (send_message topic id payload) c
        ≡ some (
          (if has_waiter (incoming payload) c
              then (receive_response (incoming payload) c).1
              else c),
          ((if has_waiter (incoming payload) c then acks id else enqueues (incoming payload))
              ∷ (if not c.no_auto_flush && (incoming payload).command == flush_queue
                  then flushes_queue ∷ []
                  else [])),
        )
  unfolding handle_payload handle_message receive_response has_waiter
  handle_payload-dispatch topic id payload c other long =
      let (taken, kept) =
        receive_as-answer (parse_payload payload).message_uuid (incoming payload) c in
      rw (other, long, taken)
        (elim (Bool-cases (waits_as (parse_payload payload).message_uuid (incoming payload) c)) [
          | inl e ↦ rw e refl
          | inr e ↦ rw (e, kept e) refl
        ])

  -- Handling a message command panics exactly if it is of another topic than that of the identity
  -- service and its number has less than four bytes.
  pub handle_payload-panics :
      (topic id payload : Bytes) (c : Connection)
      → (handle_payload is_ids_topic parse_payload (send_message topic id payload) c ≡ none)
        ↔ ((is_ids topic ≡ false) × (ltb (length id) 4 ≡ true))
  unfolding handle_payload handle_message
  handle_payload-panics topic id payload c = ground arith
