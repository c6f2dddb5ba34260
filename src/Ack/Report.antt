-- ===== src/Ack/Report.antt =====
-- `newSendMessageError` and `hasError` of ackwaiter.go.
pub mod Counts
pub mod Texts
use imessage_for_me.Base.Assoc.{bytes_key}
use imessage_for_me.Uri.Order.Sorted.{uri_key}
use imessage_for_me.Base.{
  ℕ, zero, suc, ◌+◌, Bool, true, false, not, ◌&&◌, ◌||◌, List, [], ◌∷◌, ◌++◌, map, Option, none,
  some, Bytes, ltb, ◌==◌, if◌then◌else◌, length, is_nil,
}
use imessage_for_me.Base.Assoc.{Key, find, put}
use imessage_for_me.Uri.{ParsedUri}
use imessage_for_me.Ack.{AckPayload, AckWaiter, status_key, success, message_removed}

pub record UserErrorCounts : Type 0 where
  pub missing : List Bytes
  pub failed : List (Bytes × ℕ)
  pub succeeded : List Bytes
  pub total : ℕ

pub record SendMessageError : Type 0 where
  pub destination_token_count : ℕ
  pub destination_user_count : ℕ
  pub success_count : ℕ
  pub missing_count : ℕ
  pub error_count : ℕ
  pub status_by_user : List (ParsedUri × UserErrorCounts)
  pub count_by_error_type : List (ℕ × ℕ)
  pub unique_error_types : List ℕ
  pub missing_users : List ParsedUri

abbrev no_counts : UserErrorCounts
no_counts = record { missing = []; failed = []; succeeded = []; total = 0 }

-- The entry of a map with a zero value where the key is missing.
abbrev pub or_else {ℓ} : {A : Type ℓ} → A → Option A → A
or_else d none = d
or_else d (some a) = a

-- The loop over the users.
unfoldable pub missing_users_of : List (ParsedUri × Bool) → List ParsedUri
missing_users_of [] = []
missing_users_of ((u, true) ∷ us) = missing_users_of us
missing_users_of ((u, false) ∷ us) = u ∷ missing_users_of us

-- What one device adds to the counts of its user, and to those of the message.
count_device : UserErrorCounts → Bytes → Option ℕ → UserErrorCounts
count_device c t none = record c { missing = c.missing ++ t ∷ []; total = c.total + 1 }
count_device c t (some s) =
    if s == success
    then record c { succeeded = c.succeeded ++ t ∷ []; total = c.total + 1 }
    else record c { failed = put t s c.failed; total = c.total + 1 }

unfoldable pub count_message : SendMessageError → Option ℕ → SendMessageError
count_message e none = record e { missing_count = e.missing_count + 1 }
count_message e (some s) =
    if s == success then record e { success_count = e.success_count + 1 } else record e {
      error_count = e.error_count + 1;
      count_by_error_type =
          put s (or_else 0 (find s e.count_by_error_type) + 1) e.count_by_error_type;
    }

-- The body of the loop over the payloads.
unfoldable pub count_payload : SendMessageError → Bytes → AckPayload → SendMessageError
unfolding count_device
count_payload e t p =
    let counts = or_else no_counts (find p.destination e.status_by_user) in
    let counted = count_message e p.received in
    record counted {
      status_by_user = put p.destination (count_device counts t p.received) e.status_by_user;
    }

unfoldable pub count_payloads : SendMessageError → List (Bytes × AckPayload) → SendMessageError
count_payloads e [] = e
count_payloads e ((t, p) ∷ ps) = count_payloads (count_payload e t p) ps

abbrev keys {ℓ} : {A : Type ℓ} → List (ℕ × A) → List ℕ
keys [] = []
keys ((k, a) ∷ m) = k ∷ keys m

-- The report before the loop over the payloads.
abbrev pub start : List (Bytes × AckPayload) → List (ParsedUri × Bool) → SendMessageError
start payloads users = record {
  destination_token_count = length payloads;
  destination_user_count = length users;
  success_count = 0;
  missing_count = 0;
  error_count = 0;
  status_by_user = [];
  count_by_error_type = [];
  unique_error_types = [];
  missing_users = missing_users_of users;
}

unfoldable pub new_send_message_error :
    List (Bytes × AckPayload) → List (ParsedUri × Bool) → SendMessageError
new_send_message_error payloads users =
    let counted = count_payloads (start payloads users) payloads in
    record counted { unique_error_types = keys counted.count_by_error_type }

-- `CompileError`.
unfoldable pub compile_error : AckWaiter → SendMessageError
compile_error aw = new_send_message_error aw.payloads aw.acked_users

abbrev pub only_removed : List ℕ → Bool
only_removed (s ∷ []) = s == message_removed
only_removed _ = false

-- Some user has no device that succeeded.
unfoldable pub some_user_failed : List (ParsedUri × UserErrorCounts) → Bool
some_user_failed [] = false
some_user_failed ((u, c) ∷ m) = is_nil c.succeeded || some_user_failed m

-- `hasError` of a pointer that is not nil.
unfoldable pub has_error : SendMessageError → Bool
has_error e =
    if e.error_count == 0
    then false
    else if only_removed e.unique_error_types
    then some_user_failed e.status_by_user
    else true
