-- ===== src/Uri/Identifier.antt =====
-- `ParseIdentifier` of uri.go: identifiers with or without a scheme, under parsing options.
use Prim.Native.Nat.{bit_and, bit_or}
use imessage_for_me.Base.{
  ℕ, ◌+◌, ◌-◌, Bool, false, not, ◌&&◌, ◌||◌, List, [], ◌∷◌, map, Option, none, some, Bytes, equal,
  ltb, leb, ◌==◌, if◌then◌else◌, length, is_some,
}
use imessage_for_me.Uri.{
  tel, mailto, group, group_participants, ParsedUri, Result, ok, err, missing_colon, not_allowed,
  invalid_tel, invalid_uri, national_number, is_only_numbers, is_valid_alphanumeric_sender,
  is_plus_number, is_short_number, is_base64_sha256, cut, parse_uri,
}

-- `ParsingOption`: a set of bits.
abbrev pub intl_number : ℕ
intl_number = 1

abbrev pub alphanumeric_sender_id : ℕ
alphanumeric_sender_id = 2

abbrev pub shortcodes : ℕ
shortcodes = 4

abbrev pub email : ℕ
email = 8

abbrev pub national : ℕ
national = 16

abbrev pub group_uuid : ℕ
group_uuid = 32

abbrev pub group_participant_hash : ℕ
group_participant_hash = 64

-- `ParseAnyChat`.
abbrev pub parse_any_chat : ℕ
parse_any_chat =
    intl_number + email + group_uuid + group_participant_hash + alphanumeric_sender_id + shortcodes

unfoldable pub allow : ℕ → ℕ → Bool
allow po opt = ltb 0 (bit_and po opt)

-- What the file takes from elsewhere: `strings.ToLower` on any text, and the phone number library's
-- reading of a national number in a region with its E.164 form.
pub record Locale : Type 0 where
  pub to_lower : Bytes → Bytes
  pub national_e164 : Bytes → Bytes → Option Bytes

abbrev is_hex : ℕ → Bool
is_hex c = (leb b'0' c && leb c b'9') || (leb b'a' c && leb c b'f') || (leb b'A' c && leb c b'F')

-- The parts of `uuidRe`: so many hexadecimal digits, each part but the last with a dash behind it.
hex_groups : List ℕ → ℕ → Bytes → Bool
hex_groups [] n [] = n == 0
hex_groups [] n (c ∷ cs) = not (n == 0) && is_hex c && hex_groups [] (n - 1) cs
hex_groups (k ∷ ks) n [] = false
hex_groups (k ∷ ks) n (c ∷ cs) =
    (if n == 0 then c == b'-' else is_hex c)
    && hex_groups (if n == 0 then ks else k ∷ ks) (if n == 0 then k else n - 1) cs

unfoldable pub is_uuid : Bytes → Bool
unfolding hex_groups
is_uuid = hex_groups (4 ∷ 4 ∷ 4 ∷ 12 ∷ []) 8

-- `strings.ToUpper` on ASCII text, as every text is that `uuidRe` matches.
unfoldable pub to_upper : Bytes → Bytes
to_upper = map (λ c. if leb b'a' c && leb c b'z' then c - 32 else c)

-- The switch on a URI that was parsed, in the first half of `parseIdentifier`.
unfoldable pub check_tel : ParsedUri → ℕ → Result
check_tel u opts =
    if is_plus_number u.identifier && ltb 7 (length u.identifier)
    then (if allow opts intl_number then ok u else err not_allowed)
    else if is_short_number u.identifier
    then (if allow opts shortcodes then ok u else err not_allowed)
    else if is_valid_alphanumeric_sender u.identifier
    then (if allow opts alphanumeric_sender_id then ok u else err not_allowed)
    else err invalid_tel

unfoldable pub check_scheme : ParsedUri → ℕ → Result
check_scheme u opts =
    if equal u.scheme mailto && not (allow opts email)
    then err not_allowed
    else if equal u.scheme group && not (allow opts group_uuid)
    then err not_allowed
    else if equal u.scheme group_participants && not (allow opts group_participant_hash)
    then err not_allowed
    else if equal u.scheme tel
    then check_tel u opts
    else ok u

-- The switch of the second half, on an identifier without a colon.
unfoldable pub bare_identifier : Locale → Bytes → ℕ → Bytes → Result
bare_identifier env identifier opts region =
    if allow opts group_uuid && is_uuid identifier
    then ok (record { scheme = group; identifier = to_upper identifier })
    else if allow opts group_participant_hash && is_base64_sha256 identifier
    then ok (record { scheme = group_participants; identifier = identifier })
    else if allow opts email && is_some (cut b'@' identifier)
    then ok (record { scheme = mailto; identifier = env.to_lower identifier })
    else if (allow opts intl_number && ltb 7 (length identifier) && is_plus_number identifier)
        || (allow opts shortcodes && is_short_number identifier)
        || (allow opts alphanumeric_sender_id && is_valid_alphanumeric_sender identifier)
    then ok (record { scheme = tel; identifier = identifier })
    else if allow opts national && ltb 6 (length identifier) && is_only_numbers identifier
    then elim (env.national_e164 identifier region) [
      | none ↦ err national_number
      | some number ↦ ok (record { scheme = tel; identifier = number })
    ]
    else err invalid_uri

-- `parseIdentifier`: the first half where the identifier has a colon.
unfoldable pub parsed_identifier : Locale → Bytes → ℕ → Bytes → Result → Result
parsed_identifier env identifier opts region (err missing_colon) =
    bare_identifier env identifier opts region
parsed_identifier env identifier opts region (ok u) = check_scheme u opts
parsed_identifier env identifier opts region (err e) = err e

unfoldable pub parse_identifier_in : Locale → Bytes → ℕ → Bytes → Result
unfolding parsed_identifier
parse_identifier_in env identifier opts region =
    parsed_identifier env identifier opts region (parse_uri identifier)

-- `ParseIdentifier` and `ParseIdentifierWithLocalNumbers`.
unfoldable pub parse_identifier : Locale → Bytes → ℕ → Result
parse_identifier env identifier opts =
    if allow opts national then err invalid_uri else parse_identifier_in env identifier opts []

unfoldable pub parse_identifier_with_local_numbers : Locale → Bytes → ℕ → Bytes → Result
parse_identifier_with_local_numbers env identifier opts region =
    parse_identifier_in env identifier (bit_or opts national) region
