-- ===== src/Uri.antt =====
-- imessage/imessage/direct/util/uri/uri.go: handles and chats as URIs. A Go string is the list of
-- its bytes; a rune that is not ASCII shows here as bytes of 128 and more, which every test of the
-- file refuses as it refuses the rune.
pub mod Identifier
pub mod RoundTrip
pub mod Options
pub mod Order
use imessage_for_me.Base.{
  ℕ, ◌+◌, ◌-◌, ◌≡◌, refl, Bool, true, false, not, ◌&&◌, ◌||◌, List, [], ◌∷◌, ◌++◌, Option, none,
  some, Bytes, codes, equal, ltb, leb, ◌==◌, if◌then◌else◌, length, all, is_nil,
}

abbrev pub tel : Bytes
tel = codes "tel"

abbrev pub mailto : Bytes
mailto = codes "mailto"

abbrev pub group : Bytes
group = codes "group"

abbrev pub group_participants : Bytes
group_participants = codes "group-participants"

abbrev pub urn : Bytes
urn = codes "urn"

-- `Scheme.Order`.
unfoldable pub order : Bytes → ℕ
order s =
    if equal s tel
    then 0
    else if equal s mailto
    then 1
    else if equal s group
    then 2
    else if equal s group_participants
    then 3
    else 4

pub record ParsedUri : Type 0 where
  pub scheme : Bytes
  pub identifier : Bytes

abbrev pub empty_uri : ParsedUri
empty_uri = record { scheme = []; identifier = [] }

abbrev within : ℕ → ℕ → ℕ → Bool
within lo hi c = leb lo c && leb c hi

abbrev pub is_digit : ℕ → Bool
is_digit c = within b'0' b'9' c

-- `IsOnlyNumbers`: true of the empty string too.
unfoldable pub is_only_numbers : Bytes → Bool
is_only_numbers = all is_digit

-- A byte that `isValidAlphanumericSender` counts as a letter.
abbrev pub is_letter : ℕ → Bool
is_letter r =
    within b'a' b'z' r
    || within b'A' b'Z' r
    || r == b' '
    || r == b'-'
    || r == b'_'
    || r == b'&'
    || r == b'+'

-- The loop of `isValidAlphanumericSender` and the test behind it.
sender_loop : Bytes → Bool → Bool
sender_loop [] has_letters = has_letters
sender_loop (r ∷ rs) has_letters =
    let rest = sender_loop rs (is_letter r || has_letters) in
    if is_letter r then rest else if is_digit r then rest else false

unfoldable pub is_valid_alphanumeric_sender : Bytes → Bool
unfolding sender_loop
is_valid_alphanumeric_sender s = if ltb 11 (length s) then false else sender_loop s false

-- `identifier[0] == '+' && IsOnlyNumbers(identifier[1:])`. The source reads the first byte of
-- strings that are not empty only.
unfoldable pub is_plus_number : Bytes → Bool
is_plus_number [] = false
is_plus_number (c ∷ cs) = c == b'+' && is_only_numbers cs

-- `len(identifier) <= 6 && IsOnlyNumbers(identifier)`.
unfoldable pub is_short_number : Bytes → Bool
is_short_number s = leb (length s) 6 && is_only_numbers s

is_base64_url : ℕ → Bool
is_base64_url c =
    within b'0' b'9' c || within b'a' b'z' c || within b'A' b'Z' c || c == b'_' || c == b'-'

-- `base64SHA256Re`.
unfoldable pub is_base64_sha256 : Bytes → Bool
unfolding is_base64_url
is_base64_sha256 s = length s == 43 && all is_base64_url s

-- `strings.IndexRune(s, c)` of an ASCII character: what stands before and behind the first one.
unfoldable pub cut : ℕ → Bytes → Option (Bytes × Bytes)
cut c [] = none
cut c (x ∷ xs) =
    if x == c
    then some ([], xs)
    else elim (cut c xs) [ none ↦ none | some (a, b) ↦ some (x ∷ a, b) ]

pub data UriError : Type 0 where
  missing_colon empty_identifier invalid_phone_number invalid_email : UriError
  invalid_hash unknown_scheme : UriError
  not_allowed invalid_tel invalid_uri national_number : UriError

pub data Result : Type 0 where
  ok : ParsedUri → Result
  err : UriError → Result

-- The `atIndex` test on an email address: a character stands on each side of the first `@`.
email_parts : Option (Bytes × Bytes) → Bool
email_parts none = false
email_parts (some (a, b)) = not (is_nil a) && not (is_nil b)

unfoldable pub is_email : Bytes → Bool
unfolding email_parts
is_email s = email_parts (cut b'@' s)

-- `validateURI`. With an error some branches of the source return the URI too; no caller reads it
-- but `parseIdentifier`, which hands it on with the error.
unfoldable pub validate_uri : Bytes → Bytes → Result
validate_uri scheme identifier =
    let u : ParsedUri = record { scheme = scheme; identifier = identifier } in
    if is_nil identifier
    then err empty_identifier
    else if equal scheme tel
    then (if is_plus_number identifier
        then ok u
        else if is_short_number identifier
        then ok u
        else if is_valid_alphanumeric_sender identifier
        then ok u
        else err invalid_phone_number)
    else if equal scheme mailto
    then (if is_email identifier then ok u else err invalid_email)
    else if equal scheme group
    then ok u
    else if equal scheme group_participants
    then (if is_base64_sha256 identifier then ok u else err invalid_hash)
    else if equal scheme urn
    then ok u
    else err unknown_scheme

-- `ParseURI` and `ParseURIBytes`.
unfoldable pub parse_uri : Bytes → Result
parse_uri s = elim (cut b':' s) [
  | none ↦ err missing_colon
  | some (scheme, identifier) ↦ validate_uri scheme identifier
]

-- `IsEmpty` and `String` on a pointer that is not nil.
unfoldable pub is_empty : ParsedUri → Bool
is_empty u = is_nil u.scheme && is_nil u.identifier

unfoldable pub to_string : ParsedUri → Bytes
unfolding is_empty
to_string u = if is_empty u then [] else u.scheme ++ b':' ∷ u.identifier

-- `IsShortcode` on a pointer that is not nil.
unfoldable pub is_shortcode : ParsedUri → Bool
is_shortcode u = equal u.scheme tel && leb (length u.identifier) 6

-- Go's `==` on two URIs.
unfoldable pub same_uri : ParsedUri → ParsedUri → Bool
same_uri a b = equal a.scheme b.scheme && equal a.identifier b.identifier
