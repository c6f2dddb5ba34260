-- ===== src/Ack/Report/Counts.antt =====
-- The counts of a report add up.
use imessage_for_me.Base.{ℕ, ◌+◌, ◌≡◌, List, [], ◌∷◌}
use imessage_for_me.Ack.{AckPayload, status_key}
use imessage_for_me.Ack.Counters.{is_pending}
use imessage_for_me.Ack.Report.{SendMessageError}

abbrev pub counted : SendMessageError → ℕ
counted e = e.success_count + e.missing_count + e.error_count

-- The sum over the counts by error type.
unfoldable pub sum_counts : List (ℕ × ℕ) → ℕ
sum_counts [] = 0
sum_counts ((s, n) ∷ m) = n + sum_counts m

-- One device more: it is counted once, and an error is counted by its status too.
record Step (e e' : SendMessageError) (p : AckPayload) : Type 0 where
  once : counted e' ≡ counted e + 1
  by_status :
      sum_counts e.count_by_error_type ≡ e.error_count
      → sum_counts e'.count_by_error_type ≡ e'.error_count
  waiting : e'.missing_count ≡ e.missing_count + is_pending p
  tokens : e'.destination_token_count ≡ e.destination_token_count
