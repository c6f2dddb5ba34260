-- ===== src/Waiting.antt =====
-- Requests that wait for their responses: the maps of waiters of
-- imessage/imessage/direct/apns/response.go and of ipc/ipc.go. A waiter is a channel with room for
-- one value, told apart by its number and the key it was made for; each call runs under the lock of
-- its map, so that calls of concurrent goroutines come one after the other. Waiting on a nil
-- connection, which gives a closed channel, is not modelled.
pub mod Once
use imessage_for_me.Base.{ℕ, suc, Bool, true, false, List, [], ◌∷◌, Option, none, some}
use imessage_for_me.Base.Assoc.{Key, find, put, delete}

pub record Channel (K : Type 0) : Type 0 where
  pub number : ℕ
  pub made_for : K

-- The map, the number of channels made, and the values sent, the newest first.
pub record Waiting (K : Type 0) (M : Type 0) : Type 0 where
  pub waiters : List (K × Channel K)
  pub made : ℕ
  pub sent : List (Channel K × M)

pub data Call (K : Type 0) (M : Type 0) : Type 0 where
  waits cancels : K → Call K M
  receives : M → Call K M

module _ {K : Type 0} {M : Type 0} ⦃k : Key K⦄ where
  abbrev pub no_waiters : Waiting K M
  no_waiters = record { waiters = []; made = 0; sent = [] }

  abbrev pub new_channel : K → Waiting K M → Channel K
  new_channel key s = record { number = s.made; made_for = key }

  -- `WaitResponseUUID` and `WaitResponseID`.
  unfoldable pub wait : K → Waiting K M → Waiting K M
  wait key s = record s { waiters = put key (new_channel key s) s.waiters; made = suc s.made }

  -- `CancelResponseUUID` and `CancelResponseID`.
  unfoldable pub cancel : K → Waiting K M → Waiting K M
  cancel key s = record s { waiters = delete key s.waiters }

  abbrev pub send_to : Option (Channel K) → K → M → Waiting K M → Bool × Waiting K M
  send_to none key m s = (false, s)
  send_to (some ch) key m s =
      (true, record s { waiters = delete key s.waiters; sent = (ch, m) ∷ s.sent })

  -- One of the two branches of `receiveResponse`.
  unfoldable pub receive : K → M → Waiting K M → Bool × Waiting K M
  receive key m s = send_to (find key s.waiters) key m s

module _ {K : Type 0} {M : Type 0} ⦃k : Key K⦄ (key_of : M → K) where
  -- Any calls, the key of a response read from it.
  unfoldable pub step : Call K M → Waiting K M → Waiting K M
  step (waits key) s = wait key s
  step (cancels key) s = cancel key s
  step (receives m) s = (receive (key_of m) m s).1

  unfoldable pub run : List (Call K M) → Waiting K M → Waiting K M
  run [] s = s
  run (c ∷ cs) s = run cs (step c s)
