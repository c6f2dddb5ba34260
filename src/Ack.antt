-- ===== src/Ack.antt =====
-- imessage/imessage/direct/ackwaiter.go, and the loop of `sendEncryptedMessage` in connector.go
-- that fills a waiter: waiting for the acknowledgements of a message sent to many devices. The
-- maps are association lists; a call runs under the waiter's lock. `none` is a panic: a wait group
-- that falls below 0, a channel closed twice, or a short push token.
pub mod Counters
pub mod Fill
pub mod Report
pub mod Waiters
use imessage_for_me.Base.Assoc.{bytes_key}
use imessage_for_me.Uri.Order.Sorted.{uri_key}
use imessage_for_me.Base.{
  ℕ, zero, suc, ◌+◌, ◌<◌, Bool, true, false, not, ◌&&◌, ◌||◌, List, [], ◌∷◌, ◌++◌, Option, none,
  some, Bytes, equal, equal_iff, ltb, ◌==◌, ==_iff, if◌then◌else◌, length, take, is_nil,
}
use imessage_for_me.Base.Assoc.{Key, find, put}
use imessage_for_me.Uri.{ParsedUri, same_uri}
use imessage_for_me.Uri.Order.Sorted.{same_uri_iff}

infixl 5 ◌>>=◌
abbrev pub ◌>>=◌ {ℓ κ} : {A : Type ℓ} {B : Type κ} → Option A → (A → Option B) → Option B
none >>= f = none
some a >>= f = f a

instance abbrev pub status_key : Key ℕ
status_key = record { same = ◌==◌; same_iff = ==_iff }

-- `types.IDSStatusSuccess` and `types.IDSStatusMessageRemoved`.
abbrev pub success : ℕ
success = 0

abbrev pub message_removed : ℕ
message_removed = 1002

-- `ackWaiterPayload`: the status of the acknowledgement, if it has come.
pub record AckPayload : Type 0 where
  pub received : Option ℕ
  pub destination : ParsedUri

-- `ackWaiter`: `wg` and `user_wg` are the counts of the wait groups.
pub record AckWaiter : Type 0 where
  pub payloads : List (Bytes × AckPayload)
  pub acked_users : List (ParsedUri × Bool)
  pub closed : Bool
  pub cancelled : Bool
  pub wg : ℕ
  pub user_wg : ℕ
  pub error_closed : Bool
  pub server_error : ℕ

-- What `Receive` reads of an acknowledgement.
pub record Ack : Type 0 where
  pub token : Bytes
  pub status : ℕ

-- `WaitGroup.Done`.
abbrev pub done : ℕ → Option ℕ
done zero = none
done (suc n) = some n

-- The acknowledgement of a user's first device, in `Receive`.
unfoldable pub ack_user : AckWaiter → ParsedUri → Option Bool → Option AckWaiter
ack_user aw dest none = some aw
ack_user aw dest (some true) = some aw
ack_user aw dest (some false) = do
  n ← done aw.user_wg
  some (record aw { user_wg = n; acked_users = put dest true aw.acked_users })

-- `Receive` for a token that the waiter knows, on a waiter that is not closed.
unfoldable pub receive_known : AckWaiter → Ack → ParsedUri → Option ℕ → Option AckWaiter
receive_known aw ack dest (some previous) = some aw
receive_known aw ack dest none = do
  n ← done aw.wg
  let payload : AckPayload = record { received = some ack.status; destination = dest }
  let aw' = record aw { wg = n; payloads = put ack.token payload aw.payloads }
  if ack.status == success then ack_user aw' dest (find dest aw'.acked_users) else some aw'

unfoldable pub receive_token : AckWaiter → Ack → Option AckPayload → Option AckWaiter
receive_token aw ack none = some aw
receive_token aw ack (some p) =
    if aw.closed then some aw else receive_known aw ack p.destination p.received

-- `Receive` for an acknowledgement from the server itself, which has no token.
unfoldable pub receive_error : AckWaiter → ℕ → Option AckWaiter
receive_error aw status =
    if aw.server_error == 0
    then (if aw.error_closed
        then none
        else some (record aw { error_closed = true; server_error = status }))
    else some aw

-- `Receive`.
unfoldable pub receive : AckWaiter → Ack → Option AckWaiter
receive aw ack =
    if is_nil ack.token && not (ack.status == success)
    then receive_error aw ack.status
    else if not (length ack.token == 32)
    then some aw
    else receive_token aw ack (find ack.token aw.payloads)

unfoldable pub receive_all : AckWaiter → List Ack → Option AckWaiter
receive_all aw [] = some aw
receive_all aw (a ∷ acks) = do aw' ← receive aw a; receive_all aw' acks

-- `Cancel`.
unfoldable pub cancel : AckWaiter → AckWaiter
cancel aw = record aw { cancelled = true }

-- The two loops of `Close`.
unfoldable pub release_payloads : List (Bytes × AckPayload) → ℕ → Option ℕ
release_payloads [] n = some n
release_payloads ((t, p) ∷ ps) n = elim p.received [
  | none ↦ do m ← done n; release_payloads ps m
  | some status ↦ release_payloads ps n
]

unfoldable pub release_users : List (ParsedUri × Bool) → ℕ → Option ℕ
release_users [] n = some n
release_users ((u, true) ∷ us) n = release_users us n
release_users ((u, false) ∷ us) n = do m ← done n; release_users us m

unfoldable pub mark_users : List (ParsedUri × Bool) → List (ParsedUri × Bool)
mark_users [] = []
mark_users ((u, acked) ∷ us) = (u, true) ∷ mark_users us

-- `Close`.
unfoldable pub close : AckWaiter → Option AckWaiter
close aw = do
  n ← release_payloads aw.payloads aw.wg
  m ← release_users aw.acked_users aw.user_wg
  some (record aw { closed = true; wg = n; user_wg = m; acked_users = mark_users aw.acked_users })

-- One entry of the list of destinations of a message.
pub record Part : Type 0 where
  pub token : Bytes
  pub destination : ParsedUri

-- What the loop of `sendEncryptedMessage` fills: the maps of the waiter, and the kept entries.
pub record Filling : Type 0 where
  pub payloads : List (Bytes × AckPayload)
  pub acked_users : List (ParsedUri × Bool)
  pub kept : List Part

-- `*(*pushToken)(part.Token)`.
unfoldable pub push_token : Bytes → Option Bytes
push_token t = if ltb (length t) 32 then none else some (take 32 t)

abbrev pub fresh_payload : ParsedUri → AckPayload
fresh_payload dest = record { received = none; destination = dest }

-- The test that drops a token that another handle has already.
unfoldable pub is_kept : Option AckPayload → ParsedUri → Bool
is_kept none dest = true
is_kept (some p) dest = same_uri p.destination dest

unfoldable pub fill_part : Filling → Part → Bytes → Filling
fill_part f part token =
    if is_kept (find token f.payloads) part.destination
    then record {
      payloads = put token (fresh_payload part.destination) f.payloads;
      acked_users = put part.destination false f.acked_users;
      kept = f.kept ++ part ∷ [];
    }
    else f

unfoldable pub fill_parts : Filling → List Part → Option Filling
fill_parts f [] = some f
fill_parts f (part ∷ parts) = do
  token ← push_token part.token
  fill_parts (fill_part f part token) parts

abbrev pub no_parts : Filling
no_parts = record { payloads = []; acked_users = []; kept = [] }

-- `newAckWaiter` with the maps filled and the wait groups set.
unfoldable pub waiter : Filling → AckWaiter
waiter f = record {
  payloads = f.payloads;
  acked_users = f.acked_users;
  closed = false;
  cancelled = false;
  wg = length f.payloads;
  user_wg = length f.acked_users;
  error_closed = false;
  server_error = 0;
}

unfoldable pub new_filled : List Part → Option (AckWaiter × List Part)
new_filled parts = do f ← fill_parts no_parts parts; some (waiter f, f.kept)
