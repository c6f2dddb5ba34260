-- ===== src/Tests/Archives.antt =====
-- Archives and the images of links.
use imessage_for_me.Base.{
  ◌<◌, ◌^◌, ◌-◌, ◌≡◌, ◌↔◌, ℕ, refl, [], ◌∷◌, Option, none, Bytes, codes, equal, arith,
}
use imessage_for_me.Apns.Payload.{panicked, out_of_fuel}
use imessage_for_me.Archive.{
  text, number, uid, dict, Entries, no_entries, entry, Objects, get_elem?, get, parse,
}
use imessage_for_me.Archive.Ranked.{Ends, ReferIn, IsRanked}
use imessage_for_me.Archive.Ranked.Ended.{parse-Ends}
use imessage_for_me.Archive.Cycle.{FirstReference, parse_cycle}
use imessage_for_me.Balloon.{parse_balloon_image}
use imessage_for_me.Balloon.Panics.{IsTooFar, parse_balloon_image_panics}

abbrev named : Objects
named = dict (entry (codes "name") (uid 1) no_entries) ∷ text (codes "x") ∷ []

-- The first object is the only one that refers to another.
abbrev rank : ℕ → ℕ
rank n = 1 - n

named-IsRanked : IsRanked rank named
named-IsRanked = ((omega arith, tt), (tt, tt))

parse-Ends_example :
    Ends (λ (v, objs). ReferIn (λ m. rank m < rank 0) v × IsRanked rank objs) (parse 2 0 named)
parse-Ends_example = parse-Ends rank 2 0 named (omega arith) named-IsRanked

-- An object that refers to itself.
abbrev endless : Objects
endless = dict (entry (codes "next") (uid 0) no_entries) ∷ []

endless_next : (n : ℕ) → n ≡ 0 → (m : ℕ) × (m ≡ 0) × FirstReference endless n m
unfolding get_elem? get equal
endless_next n c = (
  0,
  refl,
  record {
    key = codes "next";
    rest = no_entries;
    is_object = rw c refl;
    is_followed = refl;
    is_no_dictionary = refl;
  },
)

parse_cycle_example : parse 1000 0 endless ≡ out_of_fuel
parse_cycle_example = parse_cycle (λ n. n ≡ 0) endless endless_next 1000 0 refl

abbrev link : Entries
link =
    entry (codes "icon")
      (dict (entry (codes "richLinkImageAttachmentSubstituteIndex") (number (2 ^ 63)) no_entries))
      no_entries

-- No download succeeds.
abbrev unreachable : Bytes → Option Bytes
unreachable url = none

parse_balloon_image_panics_example :
    (parse_balloon_image unreachable [] link (codes "icon") ≡ panicked)
    ↔ IsTooFar (get (codes "icon") link)
parse_balloon_image_panics_example =
    parse_balloon_image_panics unreachable [] link (codes "icon") (omega arith)

-- The panic itself.
substitute-IsTooFar : IsTooFar (get (codes "icon") link)
unfolding get equal
substitute-IsTooFar = record {
  fields = entry (codes "richLinkImageAttachmentSubstituteIndex") (number (2 ^ 63)) no_entries;
  index = 2 ^ 63;
  is_map = refl;
  has_index = refl;
  is_far = omega arith;
}
