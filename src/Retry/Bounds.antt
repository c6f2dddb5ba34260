-- ===== src/Retry/Bounds.antt =====
-- How often the retry loops try, and what they give back.
use imessage_for_me.Base.{
  ℕ, zero, suc, ◌+◌, ◌≤◌, ◌<◌, ◌≡◌, refl, true, false, some, ◌==◌, ==_iff, arith, Bool-cases, inl,
  inr, Option-cases, ◌⊎◌,
}
use imessage_for_me.Retry.{
  Attempt, status, send_error, canceled, Rewind, rewound, no_body, context_done, Response, response,
  failed, is_gateway_error, settled, do_loop, do_custom_output, SendResult, is_retried, send_loop,
  send_message,
}

-- A run of the retry loop from attempt `n`: how far it went and what it gave.
record Run (attempt : ℕ → Attempt) (left n : ℕ) (out : Response × ℕ) : Type 0 where
  some_attempt : n + 1 ≤ out.1
  bounded : out.1 ≤ n + left + 1
  answer : (s : ℕ) → out.0 ≡ response s → (k : ℕ) × (k + 1 ≡ out.1) × (attempt k ≡ status s)
  no_gateway : (s : ℕ) → out.0 ≡ response s → is_gateway_error s ≡ false

settled_response :
    (a : Attempt) (s : ℕ)
    → settled a ≡ some (response s)
    → (a ≡ status s) × (is_gateway_error s ≡ false)
unfolding settled
settled_response canceled s h = cc
settled_response send_error s h = cc
settled_response (status t) s h = ground arith

settled-Run :
    (attempt : ℕ → Attempt) (left n : ℕ) (r : Response)
    → settled (attempt n) ≡ some r
    → Run attempt left n (r, n + 1)
settled-Run attempt left n r e = record {
  some_attempt = omega arith;
  bounded = omega arith;
  answer = λ s h. (n, refl, (settled_response (attempt n) s (rw e (rw h refl))).0);
  no_gateway = λ s h. (settled_response (attempt n) s (rw e (rw h refl))).1;
}

failed-Run : (attempt : ℕ → Attempt) (left n : ℕ) → Run attempt left n (failed, n + 1)
failed-Run attempt left n = record {
  some_attempt = omega arith;
  bounded = omega arith;
  answer = λ s h. cc;
  no_gateway = λ s h. cc;
}

later-Run :
    (attempt : ℕ → Attempt) (left n : ℕ) (out : Response × ℕ)
    → Run attempt left (n + 1) out
    → Run attempt (suc left) n out
later-Run attempt left n out r = record {
  some_attempt = omega (arith, r.some_attempt);
  bounded = omega (arith, r.bounded);
  answer = r.answer;
  no_gateway = r.no_gateway;
}

do_loop-Run :
    (left : ℕ) (attempt : ℕ → Attempt) (rewind : ℕ → Rewind) (n : ℕ)
    → Run attempt left n (do_loop left attempt rewind n)
unfolding do_loop
do_loop-Run zero attempt rewind n = elim (Option-cases (settled (attempt n))) [
  | inl e ↦ rw (e, do_loop) (failed-Run attempt 0 n)
  | inr (r, e) ↦ rw (e, do_loop) (settled-Run attempt 0 n r e)
]
do_loop-Run (suc left) attempt rewind n = elim (Option-cases (settled (attempt n))) [
  | inr (r, e) ↦ rw (e, do_loop) (settled-Run attempt (suc left) n r e)
  | inl e ↦
      let again = do_loop left attempt rewind (n + 1) in
      rw (e, do_loop)
        (elim (rewind n)
          as (λ w. Run attempt (suc left) n (elim w as (λ x. Response × ℕ) [
            | rewound ↦ again
            | no_body ↦ (failed, n + 1)
            | context_done ↦ (failed, n + 1)
          ])) [
            | rewound ↦ later-Run attempt left n again (do_loop-Run left attempt rewind (n + 1))
            | no_body ↦ failed-Run attempt (suc left) n
            | context_done ↦ failed-Run attempt (suc left) n
          ])
]

-- A request is tried at least once, and once more than `MaxRetries` at most.
pub do_custom_output_bounds :
    (max_retries : ℕ) (attempt : ℕ → Attempt) (rewind : ℕ → Rewind)
    → (1 ≤ (do_custom_output max_retries attempt rewind).1)
      × ((do_custom_output max_retries attempt rewind).1 ≤ max_retries + 1)
unfolding do_custom_output
do_custom_output_bounds max_retries attempt rewind =
    let r = do_loop-Run max_retries attempt rewind 0 in
    (omega (arith, r.some_attempt), omega (arith, r.bounded))

-- A response that is handed on is that of the last attempt, and its status is none of 502, 503
-- and 504.
pub do_custom_output_response :
    (max_retries : ℕ) (attempt : ℕ → Attempt) (rewind : ℕ → Rewind) (s : ℕ)
    → (do_custom_output max_retries attempt rewind).0 ≡ response s
    → ((k : ℕ) × (k + 1 ≡ (do_custom_output max_retries attempt rewind).1) × (attempt k ≡ status s))
      × (is_gateway_error s ≡ false)
unfolding do_custom_output
do_custom_output_response max_retries attempt rewind s h =
    let r = do_loop-Run max_retries attempt rewind 0 in (r.answer s h, r.no_gateway s h)

-- All attempts from one number on and before another were retried.
abbrev pub AllRetried : (ℕ → SendResult) → ℕ → ℕ → Type 0
AllRetried attempt n m = (k : ℕ) → n ≤ k → k + 1 < m → is_retried (attempt k) ≡ true

send_loop_lem :
    (left : ℕ) (attempt : ℕ → SendResult) (n : ℕ)
    → (last : ℕ) × (send_loop left attempt n ≡ (attempt last, last + 1))
      × (n ≤ last)
      × (last ≤ n + left)
      × ((last ≡ n + left) ⊎ (is_retried (attempt last) ≡ false))
      × AllRetried attempt n (last + 1)
unfolding send_loop
send_loop_lem zero attempt n =
    (n, refl, omega arith, omega arith, inl (omega arith), λ k lo hi. absurd (omega arith))
send_loop_lem (suc left) attempt n = elim (Bool-cases (is_retried (attempt n))) [
  | inr stop ↦ (n, rw stop, omega arith, omega arith, inr stop, λ k lo hi. absurd (omega arith))
  | inl retry ↦
      let (last, ran, lo, hi, why, all) = send_loop_lem left attempt (n + 1) in
      (
        last,
        rw retry ran,
        omega (arith, lo),
        omega (arith, hi),
        elim why [ inl e ↦ inl (omega (arith, e)) | inr stop ↦ inr stop ],
        λ k from before. elim (Bool-cases (k == n)) [
          | inl same ↦ rw ((==_iff k n).0 same) retry
          | inr later ↦ all k (ground arith) before
        ],
      )
]

-- `SendMessage` makes six attempts at most and gives the result of the last. All before it failed
-- with a retried error, and the last did not unless it was the sixth.
pub send_message_lem :
    (attempt : ℕ → SendResult)
    → (last : ℕ) × (send_message attempt ≡ (attempt last, last + 1))
      × (last ≤ 5)
      × ((last ≡ 5) ⊎ (is_retried (attempt last) ≡ false))
      × AllRetried attempt 0 (last + 1)
unfolding send_message
send_message_lem attempt =
    let (last, ran, lo, hi, why, all) = send_loop_lem 5 attempt 0 in (last, ran, hi, why, all)
