-- ===== src/Uri/Order/Known.antt =====
-- The URIs that the parsers of uri.go return have schemes that `validateURI` accepts.
use imessage_for_me.Base.{ℕ, ◌≡◌, refl, Option, none, some, Bytes, equal, arith, []}
use imessage_for_me.Uri.{
  ParsedUri, Result, ok, err, missing_colon, cut, validate_uri, parse_uri, order,
}
use imessage_for_me.Uri.Identifier.{
  Locale, check_tel, check_scheme, bare_identifier, parsed_identifier, parse_identifier_in,
  parse_identifier,
}
use imessage_for_me.Uri.Order.Canonical.{is_known, IsKnown, validate_uri-IsKnown}

pub parse_uri-IsKnown : (s : Bytes) (u : ParsedUri) → parse_uri s ≡ ok u → IsKnown u
unfolding parse_uri
parse_uri-IsKnown s u h = by_cut (cut b':' s) h
  where
    by_cut :
        (o : Option (Bytes × Bytes))
        → elim o [
          | none ↦ err missing_colon
          | some (scheme, identifier) ↦ validate_uri scheme identifier
        ]
          ≡ ok u
        → IsKnown u
    by_cut none h = ground (arith, h)
    by_cut (some (scheme, identifier)) h = validate_uri-IsKnown scheme identifier u h

check_tel_same : (u v : ParsedUri) (opts : ℕ) → check_tel u opts ≡ ok v → u ≡ v
unfolding check_tel
check_tel_same u v opts h = ground arith

check_scheme_same : (u v : ParsedUri) (opts : ℕ) → check_scheme u opts ≡ ok v → u ≡ v
unfolding check_scheme
check_scheme_same u v opts h = ground (arith, check_tel_same u v opts)

bare_identifier-IsKnown :
    (env : Locale) (s : Bytes) (opts : ℕ) (region : Bytes) (u : ParsedUri)
    → bare_identifier env s opts region ≡ ok u
    → IsKnown u
unfolding bare_identifier is_known order equal
bare_identifier-IsKnown env s opts region u h = ground arith

pub parse_identifier_in-IsKnown :
    (env : Locale) (s : Bytes) (opts : ℕ) (region : Bytes) (u : ParsedUri)
    → parse_identifier_in env s opts region ≡ ok u
    → IsKnown u
unfolding parse_identifier_in
parse_identifier_in-IsKnown env s opts region u h = by_result (parse_uri s) refl h
  where
    by_result :
        (r : Result) → parse_uri s ≡ r → parsed_identifier env s opts region r ≡ ok u → IsKnown u
    by_result (err missing_colon) e h = bare_identifier-IsKnown env s opts region u h
    by_result (ok v) e h = rw (check_scheme_same v u opts h) at (parse_uri-IsKnown s v e)
    by_result (err _) e h = cc

pub parse_identifier-IsKnown :
    (env : Locale) (s : Bytes) (opts : ℕ) (u : ParsedUri)
    → parse_identifier env s opts ≡ ok u
    → IsKnown u
unfolding parse_identifier
parse_identifier-IsKnown env s opts u h =
    ground (arith, parse_identifier_in-IsKnown env s opts [] u)
