-- ===== src/Ack/Counters.antt =====
-- The wait groups of a waiter count what is still missing, so no call panics.
use imessage_for_me.Base.Assoc.{bytes_key}
use imessage_for_me.Uri.Order.Sorted.{uri_key}
use imessage_for_me.Base.{
  ℕ, suc, ◌+◌, ◌-◌, ◌≡◌, refl, ◌∙◌, Bool, true, false, not, ◌&&◌, List, [], ◌∷◌, Option, none, some,
  Bytes, ◌==◌, if◌then◌else◌, length, is_nil, arith, Bool-cases, inl, inr,
}
use imessage_for_me.Base.Assoc.{find, put}
use imessage_for_me.Uri.{ParsedUri}
use imessage_for_me.Ack.{
  AckPayload, AckWaiter, Ack, ack_user, receive_known, receive_token, receive_error, receive,
  receive_all, cancel, release_payloads, release_users, mark_users, close, success,
}

-- The devices that have not answered, and the users none of whose devices has accepted.
abbrev pub is_pending : AckPayload → ℕ
is_pending p = elim p.received [ none ↦ 1 | some s ↦ 0 ]

unfoldable pub pending : List (Bytes × AckPayload) → ℕ
pending [] = 0
pending ((t, p) ∷ ps) = is_pending p + pending ps

unfoldable pub unacked : List (ParsedUri × Bool) → ℕ
unacked [] = 0
unacked ((u, acked) ∷ us) = (if acked then 0 else 1) + unacked us

-- What holds of a waiter between two calls.
pub record Inv (aw : AckWaiter) : Type 0 where
  pub devices : aw.closed ≡ false → aw.wg ≡ pending aw.payloads
  pub users : aw.closed ≡ false → aw.user_wg ≡ unacked aw.acked_users
  pub error_once : aw.error_closed ≡ not (aw.server_error == 0)

-- Replacing the entry that `find` gave changes the count by that entry.
pending-put :
    (t : Bytes) (q : AckPayload) (ps : List (Bytes × AckPayload)) (p : AckPayload)
    → find t ps ≡ some p
    → pending (put t q ps) + is_pending p ≡ pending ps + is_pending q
unfolding pending find put
pending-put t q [] p h = cc
pending-put t q ((s, r) ∷ ps) p h = ground (arith, pending-put t q ps p)

unacked-put :
    (u : ParsedUri) (us : List (ParsedUri × Bool))
    → find u us ≡ some false
    → unacked us ≡ suc (unacked (put u true us))
unfolding unacked find put
unacked-put u [] h = cc
unacked-put u ((v, b) ∷ us) h = ground (arith, unacked-put u us)

-- A call that did not panic, and left the invariant.
abbrev pub Kept : Option AckWaiter → Type 0
Kept none = ⊥
Kept (some aw) = Inv aw

ack_user-Kept :
    (aw : AckWaiter) (dest : ParsedUri) (o : Option Bool)
    → find dest aw.acked_users ≡ o
    → aw.closed ≡ false
    → Inv aw
    → Kept (ack_user aw dest o)
unfolding ack_user
ack_user-Kept aw dest none e c v = v
ack_user-Kept aw dest (some true) e c v = v
ack_user-Kept aw dest (some false) e c v =
    rw (v.users c ∙ unacked-put dest aw.acked_users e)
      (record { devices = v.devices; users = λ _. refl; error_once = v.error_once })

receive_known-Kept :
    (aw : AckWaiter) (ack : Ack) (p : AckPayload)
    → find ack.token aw.payloads ≡ some p
    → aw.closed ≡ false
    → Inv aw
    → (o : Option ℕ) → p.received ≡ o
    → Kept (receive_known aw ack p.destination o)
unfolding receive_known
receive_known-Kept aw ack p e c v (some s) r = v
receive_known-Kept aw ack p e c v none r =
    let q : AckPayload = record { received = some ack.status; destination = p.destination } in
    let rest : List (Bytes × AckPayload) = put ack.token q aw.payloads in
    let one : is_pending p ≡ 1 = rw r in
    let fall : aw.wg ≡ suc (pending rest) =
      omega (arith, v.devices c, pending-put ack.token q aw.payloads p e, one) in
    let aw' : AckWaiter = record aw { wg = pending rest; payloads = rest } in
    let v' : Inv aw' = record { devices = λ _. refl; users = v.users; error_once = v.error_once } in
    rw fall (elim (Bool-cases (ack.status == success)) [
      | inl ok ↦ rw ok (ack_user-Kept aw' p.destination _ refl c v')
      | inr failed ↦ rw failed v'
    ])

receive_token-Kept :
    (aw : AckWaiter) (ack : Ack) (o : Option AckPayload)
    → find ack.token aw.payloads ≡ o
    → Inv aw
    → Kept (receive_token aw ack o)
unfolding receive_token
receive_token-Kept aw ack none e v = v
receive_token-Kept aw ack (some p) e v = elim (Bool-cases aw.closed) [
  | inl c ↦ simp c v
  | inr c ↦ simp c (receive_known-Kept aw ack p e c v p.received refl)
]

receive_error-Kept :
    (aw : AckWaiter) (status : ℕ)
    → (status == success) ≡ false
    → Inv aw
    → Kept (receive_error aw status)
unfolding receive_error
receive_error-Kept aw status bad v = elim (Bool-cases (aw.server_error == 0)) [
  | inl e ↦
      let shut : aw.error_closed ≡ false = rw v.error_once (rw e) in
      rw e (rw shut (record { devices = v.devices; users = v.users; error_once = rw bad }))
  | inr e ↦ rw e v
]

-- `Receive` never panics on a waiter whose counts are right, and leaves them right.
pub receive-Kept : (aw : AckWaiter) (ack : Ack) → Inv aw → Kept (receive aw ack)
unfolding receive
receive-Kept aw ack v = elim (Bool-cases (is_nil ack.token && not (ack.status == success))) [
  | inl e ↦ rw e (receive_error-Kept aw ack.status (ground arith) v)
  | inr e ↦ rw e (elim (Bool-cases (length ack.token == 32)) [
    | inl l ↦ rw l (receive_token-Kept aw ack _ refl v)
    | inr l ↦ rw l v
  ])
]

cancel-Inv : (aw : AckWaiter) → Inv aw → Inv (cancel aw)
unfolding cancel
cancel-Inv aw v = record { devices = v.devices; users = v.users; error_once = v.error_once }

release_payloads_lem :
    (ps : List (Bytes × AckPayload)) (n m : ℕ) → m ≡ pending ps + n → release_payloads ps m ≡ some n
unfolding release_payloads pending
release_payloads_lem [] n m h = ground arith
release_payloads_lem ((t, p) ∷ ps) n m h =
    ground (arith, release_payloads_lem ps n (m - 1), release_payloads_lem ps n m)

release_users_lem :
    (us : List (ParsedUri × Bool)) (n m : ℕ) → m ≡ unacked us + n → release_users us m ≡ some n
unfolding release_users unacked
release_users_lem [] n m h = ground arith
release_users_lem ((u, true) ∷ us) n m h = release_users_lem us n m (omega arith)
release_users_lem ((u, false) ∷ us) n m h = ground (arith, release_users_lem us n (m - 1))

-- `Close` of an open waiter whose counts are right does not panic; it takes both wait groups to 0,
-- so that nobody waits on.
pub close_lem :
    (aw : AckWaiter)
    → Inv aw
    → aw.closed ≡ false
    → (aw' : AckWaiter) × (close aw ≡ some aw')
      × (aw'.wg ≡ 0)
      × (aw'.user_wg ≡ 0)
      × (aw'.closed ≡ true)
      × Inv aw'
unfolding close
close_lem aw v c = (
  record aw { closed = true; wg = 0; user_wg = 0; acked_users = mark_users aw.acked_users },
  rw (release_payloads_lem aw.payloads 0 aw.wg (omega (arith, v.devices c)))
      (rw (release_users_lem aw.acked_users 0 aw.user_wg (omega (arith, v.users c)))),
  refl,
  refl,
  refl,
  record { devices = λ e. cc; users = λ e. cc; error_once = v.error_once },
)

-- `Receive`, on any acknowledgement and in any order, never panics on a waiter whose counts are
-- right: afterwards the counts are right again.
pub receive_all_lem :
    (acks : List Ack) (aw : AckWaiter)
    → Inv aw
    → (aw' : AckWaiter) × (receive_all aw acks ≡ some aw') × Inv aw'
unfolding receive_all
receive_all_lem [] aw v = (aw, refl, v)
receive_all_lem (a ∷ acks) aw v =
    step (receive aw a) refl (receive-Kept aw a v) (λ b. receive_all_lem acks b)
  where
    step :
        (o : Option AckWaiter)
        → receive aw a ≡ o
        → Kept o
        → ((b : AckWaiter) → Inv b → (aw' : AckWaiter) × (receive_all b acks ≡ some aw') × Inv aw')
        → (aw' : AckWaiter) × (receive_all aw (a ∷ acks) ≡ some aw') × Inv aw'
    step none e k ih = absurd k
    step (some b) e k ih = let (aw', ran, v') = ih b k in (aw', rw e ran, v')
