-- ===== src/Uri/Order/Sorted.antt =====
-- `Sort` keeps exactly the given handles, and puts them in the order of their schemes.
use imessage_for_me.Base.{
  ℕ, ◌≤◌, ◌≡◌, ◌↔◌, refl, Bool, true, false, ◌||◌, List, [], ◌∷◌, equal_iff, arith, All, Bool-cases,
  inl, inr,
}
use imessage_for_me.Base.Assoc.{Key, same_refl}
use imessage_for_me.Uri.{ParsedUri, order, same_uri}
use imessage_for_me.Uri.Order.{
  compare_uri, is_less, insert, insertion_sort, compact_from, compact, sort,
}

pub same_uri_iff : (a b : ParsedUri) → (same_uri a b ≡ true) ↔ (a ≡ b)
unfolding same_uri
same_uri_iff a b = ground (arith, equal_iff a.scheme b.scheme, equal_iff a.identifier b.identifier)

-- The keys that are URIs.
instance abbrev pub uri_key : Key ParsedUri
uri_key = record { same = same_uri; same_iff = same_uri_iff }

-- `slices.Contains`.
unfoldable pub contains : List ParsedUri → ParsedUri → Bool
contains [] u = false
contains (v ∷ vs) u = same_uri v u || contains vs u

contains-insert :
    (u w : ParsedUri) (vs : List ParsedUri)
    → contains (insert u vs) w ≡ (same_uri u w || contains vs w)
unfolding contains insert
contains-insert u w [] = refl
contains-insert u w (v ∷ vs) = ground (arith, contains-insert u w vs)

contains-insertion_sort :
    (us : List ParsedUri) (w : ParsedUri) → contains (insertion_sort us) w ≡ contains us w
unfolding contains insertion_sort
contains-insertion_sort [] w = refl
contains-insertion_sort (u ∷ us) w =
    rw (contains-insert u w (insertion_sort us), contains-insertion_sort us w)

contains-compact_from :
    (us : List ParsedUri) (u w : ParsedUri)
    → contains (compact_from u us) w ≡ (same_uri u w || contains us w)
unfolding contains compact_from
contains-compact_from [] u w = refl
contains-compact_from (v ∷ vs) u w = ground (arith, contains-compact_from vs v w, same_uri_iff u v)

contains-compact : (us : List ParsedUri) (w : ParsedUri) → contains (compact us) w ≡ contains us w
unfolding contains compact
contains-compact [] w = refl
contains-compact (u ∷ us) w = contains-compact_from us u w

-- `Sort` neither loses nor makes up a handle.
pub contains-sort : (us : List ParsedUri) (w : ParsedUri) → contains (sort us) w ≡ contains us w
unfolding sort
contains-sort us w = rw (contains-compact (insertion_sort us) w, contains-insertion_sort us w)

-- No scheme stands before one of a lower order.
abbrev pub AtLeast : ℕ → List ParsedUri → Type 0
AtLeast n us = All (λ u. n ≤ order u.scheme) us

abbrev pub InOrder : List ParsedUri → Type 0
InOrder [] = Unit
InOrder (u ∷ us) = AtLeast (order u.scheme) us × InOrder us

not_less : (u v : ParsedUri) → is_less v u ≡ false → order u.scheme ≤ order v.scheme
unfolding is_less compare_uri
not_less u v h = ground (arith, equal_iff v.scheme u.scheme)

less : (u v : ParsedUri) → is_less v u ≡ true → order v.scheme ≤ order u.scheme
unfolding is_less compare_uri
less u v h = ground (arith, equal_iff v.scheme u.scheme)

AtLeast-mono : (m n : ℕ) (us : List ParsedUri) → m ≤ n → AtLeast n us → AtLeast m us
AtLeast-mono m n [] h a = tt
AtLeast-mono m n (u ∷ us) h a = (omega (arith, a.0), AtLeast-mono m n us h a.1)

AtLeast-insert :
    (n : ℕ) (u : ParsedUri) (us : List ParsedUri)
    → n ≤ order u.scheme
    → AtLeast n us
    → AtLeast n (insert u us)
unfolding insert
AtLeast-insert n u [] h a = (h, tt)
AtLeast-insert n u (v ∷ vs) h a = elim (Bool-cases (is_less v u)) [
  | inl e ↦ rw e (a.0, AtLeast-insert n u vs h a.1)
  | inr e ↦ rw e (h, a)
]

InOrder-insert : (u : ParsedUri) (us : List ParsedUri) → InOrder us → InOrder (insert u us)
unfolding insert
InOrder-insert u [] o = (tt, tt)
InOrder-insert u (v ∷ vs) o = elim (Bool-cases (is_less v u)) [
  | inl e ↦ rw e (AtLeast-insert _ u vs (less u v e) o.0, InOrder-insert u vs o.1)
  | inr e ↦ rw e ((not_less u v e, AtLeast-mono _ _ vs (not_less u v e) o.0), o)
]

InOrder-insertion_sort : (us : List ParsedUri) → InOrder (insertion_sort us)
unfolding insertion_sort
InOrder-insertion_sort [] = tt
InOrder-insertion_sort (u ∷ us) = InOrder-insert u _ (InOrder-insertion_sort us)

AtLeast-compact_from :
    (n : ℕ) (us : List ParsedUri) (u : ParsedUri)
    → n ≤ order u.scheme
    → AtLeast n us
    → AtLeast n (compact_from u us)
unfolding compact_from
AtLeast-compact_from n [] u h a = (h, tt)
AtLeast-compact_from n (v ∷ vs) u h a = elim (Bool-cases (same_uri u v)) [
  | inl e ↦ rw e (AtLeast-compact_from n vs v a.0 a.1)
  | inr e ↦ rw e (h, AtLeast-compact_from n vs v a.0 a.1)
]

InOrder-compact_from :
    (us : List ParsedUri) (u : ParsedUri)
    → AtLeast (order u.scheme) us
    → InOrder us
    → InOrder (compact_from u us)
unfolding compact_from
InOrder-compact_from [] u a o = (tt, tt)
InOrder-compact_from (v ∷ vs) u a o = elim (Bool-cases (same_uri u v)) [
  | inl e ↦ rw e (InOrder-compact_from vs v o.0 o.1)
  | inr e ↦ rw e (AtLeast-compact_from _ vs v a.0 a.1, InOrder-compact_from vs v o.0 o.1)
]

InOrder-compact : (us : List ParsedUri) → InOrder us → InOrder (compact us)
unfolding compact
InOrder-compact [] o = tt
InOrder-compact (u ∷ us) o = InOrder-compact_from us u o.0 o.1

pub sort-InOrder : (us : List ParsedUri) → InOrder (sort us)
unfolding sort
sort-InOrder us = InOrder-compact _ (InOrder-insertion_sort us)

-- What holds of each URI of a list, and of all in it.
pub All-contains :
    {P : ParsedUri → Type 0} (uris : List ParsedUri)
    → ((u : ParsedUri) → contains uris u ≡ true → P u)
    → All P uris
unfolding contains
All-contains [] h = tt
All-contains (u ∷ us) h =
    (h u (rw (same_refl uri_key u) refl), All-contains us (λ v c. h v (ground (arith, c))))

pub contains-All :
    (P : ParsedUri → Type 0) (uris : List ParsedUri) (u : ParsedUri)
    → All P uris
    → contains uris u ≡ true
    → P u
unfolding contains
contains-All P [] u h c = absurd (ground (arith, c))
contains-All P (v ∷ us) u h c = elim (Bool-cases (same_uri v u)) [
  | inl e ↦ rw (← ((same_uri_iff v u).0 e)) h.0
  | inr e ↦ contains-All P us u h.1 (rw e at c)
]
