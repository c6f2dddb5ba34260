-- ===== src/Ack/Waiters.antt =====
-- The waiters of a connector, in ackwaiter.go: `newAckWaiter`, `finishAckWaiting` and `handleAck`. A
-- waiter is known by a number, as the source compares pointers, and `heap` is what the pointers
-- lead to.
use imessage_for_me.Base.Assoc.{bytes_key}
use imessage_for_me.Base.{
  ℕ, ◌≡◌, refl, List, [], ◌∷◌, Option, none, some, Bytes, ◌==◌, ==_iff, if◌then◌else◌, arith,
  Bool-cases, Option-cases, inl, inr, All,
}
use imessage_for_me.Base.Assoc.{Key, find, put, delete, find-delete_self, find-put_self}
use imessage_for_me.Ack.{◌>>=◌, AckWaiter, Ack, receive, waiter, no_parts}
use imessage_for_me.Ack.Counters.{Inv, receive-Kept}
use imessage_for_me.Delivery.{uuid_of}

instance abbrev pub pointer_key : Key ℕ
pointer_key = record { same = ◌==◌; same_iff = ==_iff }

-- `ackWaiters`, by the UUID of the message.
pub record Waiters : Type 0 where
  pub running : List (Bytes × ℕ)
  pub heap : List (ℕ × AckWaiter)

-- `newAckWaiter`, which makes the waiter `p`. Its maps are empty.
unfoldable pub new_ack_waiter : Waiters → Bytes → ℕ → Waiters
new_ack_waiter ws id p = record {
  running = put id p ws.running;
  heap = put p (waiter no_parts) ws.heap;
}

-- `finishAckWaiting`.
unfoldable pub finish_ack_waiting : Waiters → Bytes → ℕ → Waiters
finish_ack_waiting ws id p = elim (find id ws.running) [
  | none ↦ ws
  | some q ↦ if q == p then record ws { running = delete id ws.running } else ws
]

-- `Receive` of the waiter that a pointer leads to; a dangling pointer is `none`, as a fault is.
unfoldable pub receive_at : Waiters → ℕ → Ack → Option Waiters
receive_at ws p ack = do
  aw ← find p ws.heap
  aw' ← receive aw ack
  some (record ws { heap = put p aw' ws.heap })

-- `handleAck`, for the UUID bytes of the payload: an acknowledgement that no waiter waits for is
-- dropped.
unfoldable pub handle_ack : Waiters → Bytes → Ack → Option Waiters
handle_ack ws message_uuid ack = elim (find (uuid_of message_uuid) ws.running) [
  | none ↦ some ws
  | some p ↦ receive_at ws p ack
]

-- What holds between two calls: every waiter's counts are right.
abbrev pub AllInv : List (ℕ × AckWaiter) → Type 0
AllInv = All (λ e. Inv e.1)

AllInv-put :
    (p : ℕ) (aw : AckWaiter) (heap : List (ℕ × AckWaiter))
    → Inv aw
    → AllInv heap
    → AllInv (put p aw heap)
unfolding put
AllInv-put p aw [] v a = (v, tt)
AllInv-put p aw ((q, b) ∷ heap) v a = elim (Bool-cases (q == p)) [
  | inl e ↦ rw e (v, a.1)
  | inr e ↦ rw e (a.0, AllInv-put p aw heap v a.1)
]

AllInv-find :
    (p : ℕ) (aw : AckWaiter) (heap : List (ℕ × AckWaiter))
    → find p heap ≡ some aw
    → AllInv heap
    → Inv aw
unfolding find
AllInv-find p aw [] e a = cc
AllInv-find p aw ((q, b) ∷ heap) e a = elim (Bool-cases (q == p)) [
  | inl same ↦ let here : b ≡ aw = ground arith in rw (← here) a.0
  | inr other ↦ AllInv-find p aw heap (rw other at e) a.1
]

-- An acknowledgement of a message whose waiter is running is handled without a panic when the counts
-- of all waiters are right. Afterwards they are right again, the same waiters are running, and this
-- one is as `Receive` left it.
pub handle_ack_lem :
    (ws : Waiters) (message_uuid : Bytes) (ack : Ack) (p : ℕ) (aw : AckWaiter)
    → AllInv ws.heap
    → find (uuid_of message_uuid) ws.running ≡ some p
    → find p ws.heap ≡ some aw
    → (ws' : Waiters) × (handle_ack ws message_uuid ack ≡ some ws')
      × AllInv ws'.heap
      × (ws'.running ≡ ws.running)
      × (find p ws'.heap ≡ receive aw ack)
unfolding handle_ack receive_at
handle_ack_lem ws message_uuid ack p aw a f h = elim (Option-cases (receive aw ack)) [
  | inl e ↦ absurd (let kept = receive-Kept aw ack (AllInv-find p aw ws.heap h a) in rw e at kept)
  | inr (aw', e) ↦
      let kept = receive-Kept aw ack (AllInv-find p aw ws.heap h a) in
      let v : Inv aw' = rw e at kept in
      (
        record ws { heap = put p aw' ws.heap },
        rw (f, handle_ack) (rw (h, receive_at) (rw e)),
        AllInv-put p aw' ws.heap v a,
        refl,
        rw e (find-put_self p aw' ws.heap),
      )
]

-- The end of a waiter takes it off, and keeps a newer waiter for the same message.
pub finish_ack_waiting_lem :
    (ws : Waiters) (id : Bytes) (p q : ℕ)
    → find id ws.running ≡ some q
    → find id (finish_ack_waiting ws id p).running ≡ (if q == p then none else some q)
unfolding finish_ack_waiting
finish_ack_waiting_lem ws id p q e =
    rw (e, finish_ack_waiting)
      (elim (Bool-cases (q == p)) [
        | inl same ↦ rw same (find-delete_self id ws.running)
        | inr other ↦ rw other e
      ])
