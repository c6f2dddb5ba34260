-- ===== src/Balloon/Panics.antt =====
-- The images of a link on which `parseBalloonImage` reads out of range.
use imessage_for_me.Base.Int.{signed}
use imessage_for_me.Base.{
  Bool-cases, inl, inr, zero, suc, ◌<◌, ltb, length, [], ◌∷◌, ℕ, ◌≤◌, ◌^◌, ◌≡◌, ◌≢◌, ◌↔◌, refl,
  List, ◌++◌, Option, none, some, Bytes, codes, arith,
}
use imessage_for_me.Apns.Payload.{Run, returned, panicked, out_of_fuel}
use imessage_for_me.Archive.{Value, null, number, dict, Entries, get}
use imessage_for_me.Balloon.{
  RichLinkAsset, Attempt, ok, failed, ◌>>?◌, in_range, get_elem?, substitute, substitute_of,
  image_part, metadata_part, parse_balloon_image,
}

-- A map whose substitute index does not fit in an `int`.
pub record IsTooFar (o : Option Value) : Type 0 where
  pub fields : Entries
  pub index : ℕ
  pub is_map : o ≡ some (dict fields)
  pub has_index : get (codes "richLinkImageAttachmentSubstituteIndex") fields ≡ some (number index)
  pub is_far : 2 ^ 63 ≤ index

metadata_part_runs :
    (fetch : Bytes → Option Bytes) (asset : Option RichLinkAsset) (o : Option Value)
    → metadata_part fetch asset o ≢ panicked
unfolding metadata_part
metadata_part_runs fetch asset o e = ground (arith, e)

get_elem?_panics :
    (attachments : List Bytes) (n : ℕ)
    → in_range (get_elem? attachments n) ≡ panicked
    → length attachments ≤ n
unfolding get_elem?
get_elem?_panics [] n e = omega arith
get_elem?_panics (x ∷ xs) zero e = absurd (ground (arith, e))
get_elem?_panics (x ∷ xs) (suc n) e = omega (arith, get_elem?_panics xs n e)

get_elem?_beyond :
    (attachments : List Bytes) (n : ℕ) → length attachments ≤ n → get_elem? attachments n ≡ none
unfolding get_elem?
get_elem?_beyond [] n h = refl
get_elem?_beyond (x ∷ xs) zero h = absurd (omega (arith, h))
get_elem?_beyond (x ∷ xs) (suc n) h = get_elem?_beyond xs n (omega (arith, h))

substitute_panics :
    (attachments : List Bytes) (n : ℕ) → substitute attachments n ≡ panicked → 2 ^ 63 ≤ n
unfolding substitute signed
substitute_panics attachments n e = elim (Bool-cases (ltb n (2 ^ 63))) [
  | inr f ↦ ground (arith, f)
  | inl f ↦ elim (Bool-cases (ltb n (length attachments))) [
    | inl g ↦ absurd (ground (arith, g, get_elem?_panics attachments n (rw (f, g) at e)))
    | inr g ↦ absurd (ground (arith, f, g, e))
  ]
]

substitute_far :
    (attachments : List Bytes) (n : ℕ)
    → length attachments < 2 ^ 63
    → 2 ^ 63 ≤ n
    → substitute attachments n ≡ panicked
unfolding substitute signed
substitute_far attachments n few far =
    rw (get_elem?_beyond attachments n (omega (arith, few, far))) (ground (arith, far))

substitute_of_panics :
    (attachments : List Bytes) (o : Option Value)
    → substitute_of attachments o ≡ panicked
    → (index : ℕ) × (o ≡ some (number index)) × (2 ^ 63 ≤ index)
unfolding substitute_of
substitute_of_panics attachments (some (number index)) e =
    (index, refl, substitute_panics attachments index e)
substitute_of_panics attachments none e = absurd (ground (arith, e))
substitute_of_panics attachments (some null) e = absurd (ground (arith, e))
substitute_of_panics attachments (some _) e = absurd (ground (arith, e))

image_part_panics :
    (attachments : List Bytes) (o : Option Value) → image_part attachments o ≡ panicked → IsTooFar o
unfolding image_part
image_part_panics attachments none e = absurd (ground (arith, e))
image_part_panics attachments (some (dict es)) e =
    let (index, found, far) =
      substitute_of_panics attachments (get (codes "richLinkImageAttachmentSubstituteIndex") es)
        (ground (arith, e)) in
    record { fields = es; index = index; is_map = refl; has_index = found; is_far = far }
image_part_panics attachments (some null) e = absurd (ground (arith, e))
image_part_panics attachments (some _) e = absurd (ground (arith, e))

image_part-IsTooFar :
    (attachments : List Bytes) (o : Option Value)
    → length attachments < 2 ^ 63
    → IsTooFar o
    → image_part attachments o ≡ panicked
unfolding image_part substitute_of
image_part-IsTooFar attachments o few far =
    rw far.is_map (rw far.has_index (rw (substitute_far attachments far.index few far.is_far) refl))

bind_panics {ℓ κ} :
    {A : Type ℓ} {B : Type κ} (r : Run (Attempt A)) (f : A → Run (Attempt B))
    → ((a : A) → f a ≢ panicked)
    → (r >>? f) ≡ panicked
    → r ≡ panicked
bind_panics (returned (ok a)) f h e = absurd (h a e)
bind_panics (returned failed) f h e = ground (arith, e)
bind_panics panicked f h e = refl
bind_panics out_of_fuel f h e = ground (arith, e)

-- For as many attachments as a slice can have, `parseBalloonImage` panics exactly where the key holds
-- a map whose substitute index, which the sender chooses, is 2^63 or more: as an `int` it is negative
-- and passes the test, and it is out of range. Any lower index that passes the test is read.
pub parse_balloon_image_panics :
    (fetch : Bytes → Option Bytes) (attachments : List Bytes) (rlm : Entries) (key : Bytes)
    → length attachments < 2 ^ 63
    → (parse_balloon_image fetch attachments rlm key ≡ panicked) ↔ IsTooFar (get key rlm)
unfolding parse_balloon_image
parse_balloon_image_panics fetch attachments rlm key few = (
  λ e. image_part_panics attachments (get key rlm) (
      bind_panics (image_part attachments (get key rlm)) _
        (λ asset. metadata_part_runs fetch asset (get (key ++ codes "Metadata") rlm)) e),
  λ far. rw (image_part-IsTooFar attachments (get key rlm) few far) refl,
)
