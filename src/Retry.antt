-- ===== src/Retry.antt =====
-- imessage/imessage/direct/util/httputil/retry.go (`DoCustomOutput`) and the retry loop of
-- `SendMessage` in imessage/imessage/direct/apns/connection.go. What an attempt comes to is given by
-- its number; waiting times are not modelled.
pub mod Bounds
use imessage_for_me.Base.{
  ℕ, zero, suc, ◌+◌, ◌-◌, ◌<◌, Bool, true, false, not, ◌&&◌, ◌||◌, List, [], ◌∷◌, Option, none,
  some, Bytes, equal, ltb, leb, ◌==◌, if◌then◌else◌,
}

-- What `doOnce` gives: a status with the body read or not, or a failure to send. `canceled` is an
-- error that is `context.Canceled`, or any error once the context is done.
pub data Attempt : Type 0 where
  status : ℕ → Attempt
  send_error : Attempt
  canceled : Attempt

-- What a retry can find: the request goes on, its body cannot be had again, or the context ends
-- while the loop waits.
pub data Rewind : Type 0 where
  rewound no_body context_done : Rewind

-- The result of the call, with the number of attempts made.
pub data Response : Type 0 where
  response : ℕ → Response
  server_error : Response
  failed : Response

-- 502, 503 and 504.
abbrev pub is_gateway_error : ℕ → Bool
is_gateway_error s = s == 502 || s == 503 || s == 504

-- The branches of the loop that return, by the outcome of an attempt.
unfoldable pub settled : Attempt → Option Response
settled canceled = some failed
settled send_error = none
settled (status s) =
    if is_gateway_error s then none else if s == 500 then some server_error else some (response s)

-- The loop: attempt `n` and what follows. `left` is how often the loop may still retry, `MaxRetries`
-- at the start. The result carries the number of attempts.
unfoldable pub do_loop : ℕ → (ℕ → Attempt) → (ℕ → Rewind) → ℕ → Response × ℕ
do_loop zero attempt rewind n = elim (settled (attempt n)) [
  | some r ↦ (r, n + 1)
  | none ↦ (failed, n + 1)
]
do_loop (suc left) attempt rewind n =
    let again = do_loop left attempt rewind (n + 1) in
    elim (settled (attempt n)) [
      | some r ↦ (r, n + 1)
      | none ↦ elim (rewind n) [
        | rewound ↦ again
        | no_body ↦ (failed, n + 1)
        | context_done ↦ (failed, n + 1)
      ]
    ]

-- `DoCustomOutput`. `MaxRetries` is a variable of the source, 50 at first.
unfoldable pub do_custom_output : ℕ → (ℕ → Attempt) → (ℕ → Rewind) → Response × ℕ
do_custom_output max_retries attempt rewind = do_loop max_retries attempt rewind 0

-- What `sendMessageNoRetry` gives: no error, an unexpected acknowledgement with its code, or another
-- error.
pub data SendResult : Type 0 where
  sent : SendResult
  unexpected_ack : Bytes → SendResult
  other_error : SendResult

-- The code for a message that was sent too early.
abbrev pub too_early : Bytes
too_early = 0x80 ∷ []

unfoldable pub is_retried : SendResult → Bool
is_retried sent = false
is_retried (unexpected_ack code) = equal code too_early
is_retried other_error = true

-- The loop of `SendMessage`; `left` is 5 less `retryCount`.
unfoldable pub send_loop : ℕ → (ℕ → SendResult) → ℕ → SendResult × ℕ
send_loop zero attempt n = (attempt n, n + 1)
send_loop (suc left) attempt n =
    let again = send_loop left attempt (n + 1) in
    if is_retried (attempt n) then again else (attempt n, n + 1)

unfoldable pub send_message : (ℕ → SendResult) → SendResult × ℕ
send_message attempt = send_loop 5 attempt 0
