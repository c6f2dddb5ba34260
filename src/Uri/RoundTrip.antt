-- ===== src/Uri/RoundTrip.antt =====
-- `ParseURI` against `String`.
use imessage_for_me.Base.{
  ℕ, ◌≡◌, ◌≢◌, refl, sym, ◌∙◌, Bool, true, not, ◌&&◌, [], ◌∷◌, ◌++◌, some, Bytes, ◌==◌, arith, inl,
  inr, Option-cases,
}
use imessage_for_me.Uri.{ParsedUri, ok, cut, parse_uri, validate_uri, to_string}

-- A text without a colon.
abbrev pub no_colon : Bytes → Bool
no_colon [] = true
no_colon (c ∷ cs) = not (c == b':') && no_colon cs

cut-append : (a b : Bytes) → no_colon a ≡ true → cut b':' (a ++ b':' ∷ b) ≡ some (a, b)
unfolding cut
cut-append [] b h = refl
cut-append (c ∷ a) b h = ground (arith, cut-append a b)

cut_parts : (c : ℕ) (s a b : Bytes) → cut c s ≡ some (a, b) → s ≡ a ++ c ∷ b
unfolding cut
cut_parts c [] a b h = cc
cut_parts c (x ∷ xs) a b h = elim (Option-cases (cut c xs)) [
  | inl e ↦ ground arith
  | inr ((p, q), e) ↦ ground (arith, cut_parts c xs p q e)
]

cut-no_colon : (s a b : Bytes) → cut b':' s ≡ some (a, b) → no_colon a ≡ true
unfolding cut
cut-no_colon [] a b h = cc
cut-no_colon (x ∷ xs) a b h = elim (Option-cases (cut b':' xs)) [
  | inl e ↦ ground arith
  | inr ((p, q), e) ↦ ground (arith, cut-no_colon xs p q e)
]

-- What `validateURI` accepts is the URI of its arguments.
validate_uri_ok :
    (s i : Bytes) (u : ParsedUri)
    → validate_uri s i ≡ ok u
    → u ≡ record { scheme = s; identifier = i }
unfolding validate_uri
validate_uri_ok s [] u h = cc
validate_uri_ok s (c ∷ cs) u h = ground arith

validate_uri_ne_nil : (s i : Bytes) (u : ParsedUri) → validate_uri s i ≡ ok u → i ≢ []
unfolding validate_uri
validate_uri_ne_nil s [] u h = cc
validate_uri_ne_nil s (c ∷ cs) u h = ground arith

-- What `ParseURI` accepted: the text cut at its first colon, accepted by `validateURI`.
parse_uri_parts :
    (text : Bytes) (u : ParsedUri)
    → parse_uri text ≡ ok u
    → (cut b':' text ≡ some (u.scheme, u.identifier)) × (validate_uri u.scheme u.identifier ≡ ok u)
unfolding parse_uri
parse_uri_parts text u h = elim (Option-cases (cut b':' text)) [
  | inl e ↦ cc (rw (e, parse_uri) at h)
  | inr ((s, i), e) ↦
      let valid = rw (e, parse_uri) at h in
      let same = validate_uri_ok s i u valid in rw same (e, rw same at valid)
]

to_string_parts :
    (s i : Bytes) → i ≢ [] → to_string (record { scheme = s; identifier = i }) ≡ s ++ b':' ∷ i
unfolding to_string
to_string_parts s [] h = absurd (h refl)
to_string_parts [] (c ∷ cs) h = refl
to_string_parts (x ∷ xs) (c ∷ cs) h = refl

-- `ParseURI` loses nothing: `String` of what it accepts is the text that it was given, the scheme
-- has no colon and the identifier is not empty.
pub to_string-parse_uri :
    (text : Bytes) (u : ParsedUri)
    → parse_uri text ≡ ok u
    → (to_string u ≡ text) × (no_colon u.scheme ≡ true) × (u.identifier ≢ [])
to_string-parse_uri text u h =
    let (cutting, valid) = parse_uri_parts text u h in
    let filled = validate_uri_ne_nil u.scheme u.identifier u valid in
    (
      to_string_parts u.scheme u.identifier filled
          ∙ sym (cut_parts b':' text u.scheme u.identifier cutting),
      cut-no_colon text u.scheme u.identifier cutting,
      filled,
    )

-- `ParseURI` reads back the `String` of a URI that `validateURI` accepts, if its scheme has no colon.
pub parse_uri-to_string :
    (u : ParsedUri)
    → validate_uri u.scheme u.identifier ≡ ok u
    → no_colon u.scheme ≡ true
    → parse_uri (to_string u) ≡ ok u
unfolding parse_uri
parse_uri-to_string u valid clean =
    rw
      (
        to_string_parts u.scheme u.identifier (validate_uri_ne_nil u.scheme u.identifier u valid),
        cut-append u.scheme u.identifier clean,
        parse_uri,
      )
      valid
