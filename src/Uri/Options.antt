-- ===== src/Uri/Options.antt =====
-- Which kinds of identifier `ParseIdentifier` lets through under which options.
use imessage_for_me.Base.{
  ℕ, ◌≡◌, ◌⊎◌, inl, inr, true, false, ◌&&◌, ◌||◌, Option, none, some, Bytes, equal, equal_iff, ltb,
  length, arith, is_some, if_elim, Bool-cases, Option-cases, Bool, not, is_nil, sym,
}
use mathlib.Core.Path.{subst}
use imessage_for_me.Uri.{
  tel, mailto, group, group_participants, urn, ParsedUri, Result, ok, err, missing_colon, parse_uri,
  is_plus_number, is_short_number, is_valid_alphanumeric_sender, is_only_numbers, is_base64_sha256,
  cut, validate_uri, is_email, national_number,
}
use imessage_for_me.Uri.Identifier.{
  intl_number, alphanumeric_sender_id, shortcodes, email, national, group_uuid,
  group_participant_hash, allow, Locale, check_tel, check_scheme, bare_identifier,
  parse_identifier_in, parsed_identifier, is_uuid,
}

-- A `tel` identifier of a kind that the options allow: a number with its country that has more than
-- seven characters, a short number, the name of a sender, or a national number as it is written
-- internationally.
abbrev pub IsAllowedTel : (Bytes → Option Bytes) → ℕ → Bytes → Type 0
IsAllowedTel national_e164 opts s =
    ((is_plus_number s ≡ true) × (ltb 7 (length s) ≡ true) × (allow opts intl_number ≡ true))
    ⊎ (((is_short_number s ≡ true) × (allow opts shortcodes ≡ true))
        ⊎ (((is_valid_alphanumeric_sender s ≡ true) × (allow opts alphanumeric_sender_id ≡ true))
            ⊎ ((number : Bytes) × (national_e164 number ≡ some s)
                × (is_only_numbers number ≡ true)
                × (allow opts national ≡ true))))

-- The kinds of URI, each with the option that it needs; a `urn` URI needs none.
pub data Permits (national_e164 : Bytes → Option Bytes) (opts : ℕ) : ParsedUri → Type 0 where
  by_email :
      {s : Bytes}
      → allow opts email ≡ true
      → Permits national_e164 opts (record { scheme = mailto; identifier = s })
  by_group :
      {s : Bytes}
      → allow opts group_uuid ≡ true
      → Permits national_e164 opts (record { scheme = group; identifier = s })
  by_participants :
      {s : Bytes}
      → is_base64_sha256 s ≡ true
      → allow opts group_participant_hash ≡ true
      → Permits national_e164 opts (record { scheme = group_participants; identifier = s })
  by_tel :
      {s : Bytes}
      → IsAllowedTel national_e164 opts s
      → Permits national_e164 opts (record { scheme = tel; identifier = s })
  by_urn : {s : Bytes} → Permits national_e164 opts (record { scheme = urn; identifier = s })

module _ (env : Locale) (opts : ℕ) (region : Bytes) where
  abbrev Permitted : Result → Type 0
  Permitted (ok u) = Permits (λ s. env.national_e164 s region) opts u
  Permitted (err e) = Unit

  allowed : (b : Bool) → not b ≡ false → b ≡ true
  allowed b h = ground arith

  check_tel-Permitted :
      (s : Bytes) → Permitted (check_tel (record { scheme = tel; identifier = s }) opts)
  unfolding check_tel
  check_tel-Permitted s =
      if_elim Permitted (is_plus_number s && ltb 7 (length s))
        (λ e.
          if_elim Permitted (allow opts intl_number)
            (λ a. by_tel (inl (ground (arith, e), ground (arith, e), a))) (λ a. tt))
        λ e.
          if_elim Permitted (is_short_number s)
            (λ f.
              if_elim Permitted (allow opts shortcodes) (λ a. by_tel (inr (inl (f, a)))) (λ a. tt))
            λ f.
              if_elim Permitted (is_valid_alphanumeric_sender s)
                (λ g.
                  if_elim Permitted (allow opts alphanumeric_sender_id)
                    (λ a. by_tel (inr (inr (inl (g, a))))) (λ a. tt))
                (λ g. tt)

  of_tel : (s : Bytes) → Permitted (check_scheme (record { scheme = tel; identifier = s }) opts)
  unfolding check_scheme equal
  of_tel s = check_tel-Permitted s

  of_mailto :
      (s : Bytes) → Permitted (check_scheme (record { scheme = mailto; identifier = s }) opts)
  unfolding check_scheme equal
  of_mailto s = if_elim Permitted (not (allow opts email)) (λ e. tt) (λ e. by_email (allowed _ e))

  of_group : (s : Bytes) → Permitted (check_scheme (record { scheme = group; identifier = s }) opts)
  unfolding check_scheme equal
  of_group s =
      if_elim Permitted (not (allow opts group_uuid)) (λ e. tt) (λ e. by_group (allowed _ e))

  of_participants :
      (s : Bytes)
      → is_base64_sha256 s ≡ true
      → Permitted (check_scheme (record { scheme = group_participants; identifier = s }) opts)
  unfolding check_scheme equal
  of_participants s h =
      if_elim Permitted (not (allow opts group_participant_hash)) (λ e. tt)
        (λ e. by_participants h (allowed _ e))

  of_urn : (s : Bytes) → Permitted (check_scheme (record { scheme = urn; identifier = s }) opts)
  unfolding check_scheme equal
  of_urn s = by_urn

  -- The switch on a URI with this scheme.
  abbrev Checked : Bytes → Bytes → Type 0
  Checked s scheme = Permitted (check_scheme (record { scheme = scheme; identifier = s }) opts)

  of_scheme :
      (s scheme known : Bytes) → equal scheme known ≡ true → Checked s known → Checked s scheme
  of_scheme s scheme known e h = subst (Checked s) (sym ((equal_iff scheme known).0 e)) h

  with_scheme :
      (text scheme s : Bytes)
      → Permitted (parsed_identifier env text opts region (validate_uri scheme s))
  unfolding validate_uri parsed_identifier
  with_scheme text scheme s =
      let P : Result → Type 0 = λ r. Permitted (parsed_identifier env text opts region r) in
      if_elim P (is_nil s) (λ e. tt)
        λ e.
          if_elim P (equal scheme tel)
            (λ f.
              let h = of_scheme s scheme tel f (of_tel s) in
              if_elim P (is_plus_number s) (λ g. h)
                λ g.
                  if_elim P (is_short_number s) (λ k. h)
                    λ k. if_elim P (is_valid_alphanumeric_sender s) (λ l. h) (λ l. tt))
            λ f.
              if_elim P (equal scheme mailto)
                (λ g.
                  if_elim P (is_email s) (λ k. of_scheme s scheme mailto g (of_mailto s)) (λ k. tt))
                λ g.
                  if_elim P (equal scheme group) (λ k. of_scheme s scheme group k (of_group s))
                    λ k.
                      if_elim P (equal scheme group_participants)
                        (λ l.
                          if_elim P (is_base64_sha256 s)
                            (λ m. of_scheme s scheme group_participants l (of_participants s m))
                            (λ m. tt))
                        λ l.
                          if_elim P (equal scheme urn) (λ m. of_scheme s scheme urn m (of_urn s))
                            (λ m. tt)

  of_national :
      (s : Bytes)
      → is_only_numbers s ≡ true
      → allow opts national ≡ true
      → Permitted (elim (env.national_e164 s region) [
        | none ↦ err national_number
        | some number ↦ ok (record { scheme = tel; identifier = number })
      ])
  of_national s digits a = elim (Option-cases (env.national_e164 s region)) [
    | inl e ↦ rw e tt
    | inr (number, e) ↦ rw e (by_tel (inr (inr (inr (s, e, digits, a)))))
  ]

  without_scheme : (s : Bytes) → Permitted (bare_identifier env s opts region)
  unfolding bare_identifier
  without_scheme s =
      if_elim Permitted (allow opts group_uuid && is_uuid s) (λ e. by_group (ground (arith, e)))
        λ e.
          if_elim Permitted (allow opts group_participant_hash && is_base64_sha256 s)
            (λ f. by_participants (ground (arith, f)) (ground (arith, f)))
            λ f.
              if_elim Permitted (allow opts email && is_some (cut b'@' s))
                (λ g. by_email (ground (arith, g)))
                λ g.
                  if_elim Permitted
                    ((allow opts intl_number && ltb 7 (length s) && is_plus_number s)
                      || (allow opts shortcodes && is_short_number s)
                      || (allow opts alphanumeric_sender_id && is_valid_alphanumeric_sender s))
                    (λ h. by_tel (as_it_is s h))
                    λ h.
                      if_elim Permitted
                        (allow opts national && ltb 6 (length s) && is_only_numbers s)
                        (λ k. of_national s (ground (arith, k)) (ground (arith, k))) (λ k. tt)
    where
      as_it_is :
          (t : Bytes)
          → ((allow opts intl_number && ltb 7 (length t) && is_plus_number t)
              || (allow opts shortcodes && is_short_number t)
              || (allow opts alphanumeric_sender_id && is_valid_alphanumeric_sender t))
            ≡ true
          → IsAllowedTel (λ n. env.national_e164 n region) opts t
      as_it_is t h =
          elim (Bool-cases (allow opts intl_number && ltb 7 (length t) && is_plus_number t)) [
            | inl e ↦ inl (ground (arith, e), ground (arith, e), ground (arith, e))
            | inr e ↦ elim (Bool-cases (allow opts shortcodes && is_short_number t)) [
              | inl f ↦ inr (inl (ground (arith, f), ground (arith, f)))
              | inr f ↦ inr (inr (inl (ground (arith, e, f, h), ground (arith, e, f, h))))
            ]
          ]

  of_cut :
      (text : Bytes) (o : Option (Bytes × Bytes))
      → Permitted (
          parsed_identifier env text opts region (elim o as (λ x. Result) [
            | none ↦ err missing_colon
            | some (scheme, identifier) ↦ validate_uri scheme identifier
          ]))
  unfolding parsed_identifier
  of_cut text none = without_scheme text
  of_cut text (some (scheme, rest)) = with_scheme text scheme rest

  parsed-Permitted : (s : Bytes) → Permitted (parse_identifier_in env s opts region)
  unfolding parse_identifier_in parse_uri
  parsed-Permitted s = of_cut s (cut b':' s)

-- An identifier that `parseIdentifier` accepts, with or without a scheme, is of a kind that the
-- options allow: email addresses, group identifiers and participant hashes by their own option, and
-- `tel` identifiers by the option of their kind, international numbers of more than seven
-- characters, short numbers, senders' names, or national numbers as the library writes them. Only a
-- `urn` URI is accepted under any options.
pub parse_identifier_in-Permits :
    (env : Locale) (s : Bytes) (opts : ℕ) (region : Bytes) (u : ParsedUri)
    → parse_identifier_in env s opts region ≡ ok u
    → Permits (λ n. env.national_e164 n region) opts u
parse_identifier_in-Permits env s opts region u h =
    subst (Permitted env opts region) h (parsed-Permitted env opts region s)
