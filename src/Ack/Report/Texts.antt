-- ===== src/Ack/Report/Texts.antt =====
-- `Error` of `SendMessageError` and `formatUserList`, in ackwaiter.go. The text of a status, which
-- comes from a generated table, is an argument.
use imessage_for_me.Uri.Order.Sorted.{uri_key}
use imessage_for_me.Base.{
  ℕ, zero, suc, ◌+◌, ◌-◌, ◌/◌, ◌%◌, ◌≡◌, true, not, ◌&&◌, List, [], ◌∷◌, ◌++◌, Option, none, some,
  Bytes, codes, ltb, ◌==◌, if◌then◌else◌, length, is_nil, arith, Bool-cases, inl, inr, ap, sym, ◌∙◌,
  length-append,
}
use imessage_for_me.Base.Assoc.{find}
use imessage_for_me.Uri.{ParsedUri}
use imessage_for_me.Ack.{}
use imessage_for_me.Ack.Report.{UserErrorCounts, SendMessageError}

-- `%d`: a number has no more digits than its value and one.
digits : ℕ → ℕ → Bytes → Bytes
digits zero n out = out
digits (suc fuel) n out =
    let more = digits fuel (n / 10) ((b'0' + n % 10) ∷ out) in
    if ltb n 10 then (b'0' + n) ∷ out else more

unfoldable pub decimal : ℕ → Bytes
unfolding digits
decimal n = digits (suc n) n []

-- `formatUserList`.
unfoldable pub format_user_list : List ParsedUri → Bytes
format_user_list [] = []
format_user_list (a ∷ []) = a.identifier
format_user_list (a ∷ b ∷ []) = a.identifier ++ codes " and " ++ b.identifier
format_user_list (a ∷ b ∷ c ∷ []) =
    a.identifier ++ codes ", " ++ b.identifier ++ codes ", and " ++ c.identifier
format_user_list (a ∷ b ∷ c ∷ d ∷ rest) =
    a.identifier
    ++ codes ", "
    ++ b.identifier
    ++ codes ", and "
    ++ decimal (length (a ∷ b ∷ c ∷ d ∷ rest) - 2)
    ++ codes " others"

-- `%v` of a slice of statuses.
joined : (ℕ → Bytes) → List ℕ → Bytes
joined status_text [] = []
joined status_text (s ∷ []) = status_text s
joined status_text (s ∷ t ∷ more) = status_text s ++ codes " " ++ joined status_text (t ∷ more)

unfoldable pub error_types_text : (ℕ → Bytes) → List ℕ → Bytes
unfolding joined
error_types_text status_text [] = []
error_types_text status_text (s ∷ []) = codes "error " ++ status_text s
error_types_text status_text (s ∷ t ∷ more) =
    codes "errors: [" ++ joined status_text (s ∷ t ∷ more) ++ codes "]"

-- `erroredUserList`.
unfoldable pub errored_users : List (ParsedUri × UserErrorCounts) → List ParsedUri
errored_users [] = []
errored_users ((u, c) ∷ m) = if is_nil c.failed then errored_users m else u ∷ errored_users m

-- The case of one user who failed: `StatusByUser` has an entry for everyone in the list.
unfoldable pub one_user_text : Option UserErrorCounts → ParsedUri → Bytes → Bytes
one_user_text none u types = []
one_user_text (some c) u types =
    codes "sending to "
    ++ decimal (length c.failed)
    ++ codes "/"
    ++ decimal c.total
    ++ codes " devices of "
    ++ u.identifier
    ++ codes " failed with "
    ++ types

-- The cases in which some users failed and some did not.
unfoldable pub some_users_text : SendMessageError → Bytes → List ParsedUri → Bytes
some_users_text e types (u ∷ []) = one_user_text (find u e.status_by_user) u types
some_users_text e types users =
    codes "sending to "
    ++ decimal e.error_count
    ++ codes " devices of "
    ++ format_user_list users
    ++ codes " failed with "
    ++ types

-- The branch of `Error` with errors, for the list of the users that failed.
unfoldable pub failure_text : SendMessageError → Bytes → List ParsedUri → Bytes
failure_text e types users =
    if length users == e.destination_user_count
    then codes "sending to "
      ++ decimal e.error_count
      ++ codes "/"
      ++ decimal e.destination_token_count
      ++ codes " devices failed with "
      ++ types
    else some_users_text e types users

-- `Error`.
unfoldable pub error_text : (ℕ → Bytes) → SendMessageError → Bytes
error_text status_text e =
    if ltb 0 e.error_count
    then failure_text e (error_types_text status_text e.unique_error_types)
        (errored_users e.status_by_user)
    else if e.success_count == 0 && ltb 0 e.missing_count
    then decimal e.missing_count
      ++ codes "/"
      ++ decimal e.destination_token_count
      ++ codes " destinations didn't respond"
    else if not (is_nil e.missing_users)
    then codes "sending to all devices of "
      ++ format_user_list e.missing_users
      ++ codes " failed with no response"
    else if e.destination_token_count == 0
    then codes "no destinations"
    else codes "success"

sending-not_success : (rest : Bytes) → codes "sending to " ++ rest ≡ codes "success" → ⊥
sending-not_success rest h = cc

respond-not_success :
    (a b : Bytes)
    → a ++ codes "/" ++ b ++ codes " destinations didn't respond" ≡ codes "success"
    → ⊥
respond-not_success a b h =
    let e : length (a ++ codes "/" ++ b ++ codes " destinations didn't respond") ≡ 7 =
      ap length h in
    let whole = length-append (a ++ codes "/" ++ b) (codes " destinations didn't respond") in
    omega (arith, sym whole ∙ e)

one_user-not_success :
    (c : Option UserErrorCounts) (u : ParsedUri) (types : Bytes)
    → one_user_text c u types ≡ codes "success"
    → ⊥
unfolding one_user_text
one_user-not_success none u types h = cc
one_user-not_success (some c) u types h = sending-not_success _ h

some_users-not_success :
    (e : SendMessageError) (types : Bytes) (users : List ParsedUri)
    → some_users_text e types users ≡ codes "success"
    → ⊥
unfolding some_users_text
some_users-not_success e types (u ∷ []) h = one_user-not_success _ u types h
some_users-not_success e types [] h = sending-not_success _ h
some_users-not_success e types (u ∷ v ∷ users) h = sending-not_success _ h

failure-not_success :
    (e : SendMessageError) (types : Bytes) (users : List ParsedUri)
    → failure_text e types users ≡ codes "success"
    → ⊥
unfolding failure_text
failure-not_success e types users h = elim (Bool-cases (length users == e.destination_user_count)) [
  | inl every ↦ sending-not_success _ (rw every at h)
  | inr some_only ↦ some_users-not_success e types users (rw some_only at h)
]

-- The text is "success" only where no device failed and no user is missing.
pub error_text-success :
    (status_text : ℕ → Bytes) (e : SendMessageError)
    → error_text status_text e ≡ codes "success"
    → (e.error_count ≡ 0) × (is_nil e.missing_users ≡ true)
unfolding error_text
error_text-success status_text e h = elim (Bool-cases (ltb 0 e.error_count)) [
  | inl failed ↦ absurd (failure-not_success e _ _ (rw failed at h))
  | inr fine ↦ elim (Bool-cases (e.success_count == 0 && ltb 0 e.missing_count)) [
    | inl silent ↦ absurd (
        respond-not_success (decimal e.missing_count) (decimal e.destination_token_count)
          (rw (fine, silent) at h))
    | inr answered ↦ elim (Bool-cases (is_nil e.missing_users)) [
      | inl reached ↦ (ground arith, reached)
      | inr left ↦ absurd (sending-not_success _ (rw (fine, answered, left) at h))
    ]
  ]
]
