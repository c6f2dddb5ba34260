-- ===== src/Receive/Participants/Chats.antt =====
-- The chat and the participants of a text message to several people do not depend on the order in
-- which a payload lists them.
use mathlib.Core.Logic.{∥∥₁_elim}
use mathlib.Core.List.{Perm, Permᴰ}
use mathlib.Core.List.Permᴰ
use imessage_for_me.Base.{
  ℕ, ◌≡◌, refl, sym, ap, ◌∙◌, Bool, true, false, List, [], ◌∷◌, Option, none, some, Bytes, arith,
  All, some_inj, if◌then◌else◌,
}
use imessage_for_me.Uri.{ParsedUri, empty_uri, Result, ok, err}
use imessage_for_me.Uri.Identifier.{Locale, parse_identifier}
use imessage_for_me.Uri.Order.{sort}
use imessage_for_me.Uri.Order.Canonical.{IsKnown, sort-perm}
use imessage_for_me.Uri.Order.Known.{parse_identifier-IsKnown}
use imessage_for_me.Receive.Participants.{
  parsed_with_error, cons_uri, parse_all, fill_participants, parse_incoming_sms_forward,
  make_mms_group_id, parse_reflected_mms_participants,
}

-- A list of results without an error, taken apart.
cons_uri_inv :
    (r : Result) (o : Option (List ParsedUri)) (us : List ParsedUri)
    → cons_uri r o ≡ some us
    → (u : ParsedUri) × (vs : List ParsedUri) × (r ≡ ok u) × (o ≡ some vs) × (us ≡ u ∷ vs)
cons_uri_inv (ok u) (some vs) us h = (u, vs, refl, refl, sym (some_inj h))
cons_uri_inv (ok u) none us h = absurd (ground (arith, h))
cons_uri_inv (err e) o us h = absurd (ground (arith, h))

-- The loop without an error parses each recipient.
fill_participants_lem :
    (parse : Bytes → Result) (ss : List Bytes) (us : List ParsedUri)
    → parse_all parse ss ≡ some us
    → fill_participants parse ss ≡ (us, false)
unfolding parse_all fill_participants parsed_with_error
fill_participants_lem parse [] us h = ap (λ vs. (vs, false)) (some_inj h)
fill_participants_lem parse (s ∷ ss) us h =
    let (u, vs, e, o, q) = cons_uri_inv (parse s) (parse_all parse ss) us h in
    rw (e, parsed_with_error) (rw (fill_participants_lem parse ss vs o) (rw q refl))

-- Lists of texts in another order, of which each is parsed.
record Reordered (parse : Bytes → Result) (us : List ParsedUri) (ss : List Bytes) : Type 0 where
  uris : List ParsedUri
  parsed : parse_all parse ss ≡ some uris
  is_perm : Permᴰ us uris

parse_all-perm :
    (parse : Bytes → Result) {ss ss' : List Bytes} (us : List ParsedUri)
    → Permᴰ ss ss'
    → parse_all parse ss ≡ some us
    → Reordered parse us ss'
unfolding parse_all
parse_all-perm parse us Permᴰ.nil h = record { uris = us; parsed = h; is_perm = Permᴰ.refl us }
parse_all-perm parse us (Permᴰ.cons {a = s} {l₁ = ss} e p) h =
    let (u, vs, r, o, q) = cons_uri_inv (parse s) (parse_all parse ss) us h in
    let rest = parse_all-perm parse vs p o in
    record {
      uris = u ∷ rest.uris;
      parsed = rw (← e) (rw r (rw rest.parsed refl));
      is_perm = rw q (Permᴰ.cons refl rest.is_perm);
    }
parse_all-perm parse us (Permᴰ.swap {a = s} {b = t} {l = ss} e f) h =
    let (u, vs, r, o, q) = cons_uri_inv (parse s) (parse_all parse (t ∷ ss)) us h in
    let (u', vs', r', o', q') = cons_uri_inv (parse t) (parse_all parse ss) vs o in
    record {
      uris = u' ∷ u ∷ vs';
      parsed = rw (← e) (rw (← f) (rw r' (rw r (rw o' refl))));
      is_perm = rw q (rw q' (Permᴰ.swap refl refl));
    }
parse_all-perm parse us (Permᴰ.trans p p') h =
    let first = parse_all-perm parse us p h in
    let second = parse_all-perm parse first.uris p' first.parsed in
    record {
      uris = second.uris;
      parsed = second.parsed;
      is_perm = Permᴰ.trans first.is_perm second.is_perm;
    }

parse_all-IsKnown :
    (env : Locale) (opts : ℕ) (ss : List Bytes) (us : List ParsedUri)
    → parse_all (λ s. parse_identifier env s opts) ss ≡ some us
    → All IsKnown us
unfolding parse_all
parse_all-IsKnown env opts [] us h = rw (← some_inj h) tt
parse_all-IsKnown env opts (s ∷ ss) us h =
    let (u, vs, r, o, q) =
      cons_uri_inv (parse_identifier env s opts) (parse_all (λ s'. parse_identifier env s' opts) ss)
        us h in
    rw q (parse_identifier-IsKnown env s opts u r, parse_all-IsKnown env opts ss vs o)

module _ (env : Locale) (hash : Bytes → Bytes) where
  abbrev parse_recipient : Bytes → Result
  parse_recipient s = parse_identifier env s parse_incoming_sms_forward

  -- All recipients parsed: they are sorted, and the chat is the hash of the sorted list.
  pub parse_reflected_lem :
      (ss : List Bytes) (us : List ParsedUri)
      → parse_all parse_recipient ss ≡ some us
      → parse_reflected_mms_participants env hash ss
        ≡ (sort us, make_mms_group_id hash (sort us), false)
  unfolding parse_reflected_mms_participants
  parse_reflected_lem ss us h =
      ap
        (λ (r : List ParsedUri × Bool).
          if r.1
          then (r.0, empty_uri, true)
          else (sort r.0, make_mms_group_id hash (sort r.0), false))
        (fill_participants_lem parse_recipient ss us h)

  Reflected-set : IsSet (List ParsedUri × ParsedUri × Bool)
  Reflected-set = hlevel

  -- If every recipient of a reflected text message can be parsed, listing the recipients in another
  -- order gives the same participants and the same chat.
  pub parse_reflected-perm :
      (ss ss' : List Bytes) (us : List ParsedUri)
      → Perm ss ss'
      → parse_all parse_recipient ss ≡ some us
      → parse_reflected_mms_participants env hash ss' ≡ parse_reflected_mms_participants env hash ss
  parse_reflected-perm ss ss' us p h = ∥∥₁_elim p (Reflected-set _ _) λ d.
      let other = parse_all-perm parse_recipient us d h in
      let same : sort other.uris ≡ sort us = sym (
        sort-perm us other.uris ∣ other.is_perm ∣₁
          (parse_all-IsKnown env parse_incoming_sms_forward ss us h)) in
      parse_reflected_lem ss' other.uris other.parsed ∙ rw same (sym (parse_reflected_lem ss us h))
