-- ===== src/Uri/Order/Canonical.antt =====
-- The order of a list of handles does not matter to `Sort`, if `validateURI` accepts their schemes.
use Prim.Native.Nat.{lt, eq, gt}
use mathlib.Core.Logic.{∥∥₁_elim}
use mathlib.Core.Path.{subst}
use mathlib.Core.List.{Perm, Permᴰ}
use imessage_for_me.Base.{
  ◌≡◌, refl, sym, ap, ◌∙◌, Bool, true, false, ◌||◌, List, [], ◌∷◌, Bytes, equal, ltb, equal_iff,
  arith, All, Bool-cases, inl, inr,
}
use imessage_for_me.Uri.{
  ParsedUri, order, tel, mailto, group, group_participants, urn, ok, validate_uri,
}
use imessage_for_me.Uri.Order.{
  compare_bytes, compare_uri, is_less, insert, insertion_sort, compact, sort,
}

compare_bytes-eq : (a b : Bytes) → compare_bytes a b ≡ eq → a ≡ b
unfolding compare_bytes
compare_bytes-eq [] [] h = refl
compare_bytes-eq [] (y ∷ ys) h = ground (arith, h)
compare_bytes-eq (x ∷ xs) [] h = ground (arith, h)
compare_bytes-eq (x ∷ xs) (y ∷ ys) h = ground (arith, compare_bytes-eq xs ys)

compare_bytes-gt : (a b : Bytes) → compare_bytes a b ≡ gt → compare_bytes b a ≡ lt
unfolding compare_bytes
compare_bytes-gt [] [] h = ground (arith, h)
compare_bytes-gt [] (y ∷ ys) h = ground (arith, h)
compare_bytes-gt (x ∷ xs) [] h = refl
compare_bytes-gt (x ∷ xs) (y ∷ ys) h = ground (arith, compare_bytes-gt xs ys)

compare_bytes_trans :
    (a b c : Bytes) → compare_bytes a b ≡ lt → compare_bytes b c ≡ lt → compare_bytes a c ≡ lt
unfolding compare_bytes
compare_bytes_trans [] [] c h k = ground (arith, h)
compare_bytes_trans [] (y ∷ ys) [] h k = ground (arith, k)
compare_bytes_trans [] (y ∷ ys) (z ∷ zs) h k = refl
compare_bytes_trans (x ∷ xs) [] c h k = ground (arith, h)
compare_bytes_trans (x ∷ xs) (y ∷ ys) [] h k = ground (arith, k)
compare_bytes_trans (x ∷ xs) (y ∷ ys) (z ∷ zs) h k = ground (arith, compare_bytes_trans xs ys zs)

-- One of the schemes that `validateURI` accepts.
unfoldable pub is_known : Bytes → Bool
is_known s = ltb (order s) 4 || equal s urn

abbrev pub IsKnown : ParsedUri → Type 0
IsKnown u = is_known u.scheme ≡ true

order_inj :
    (a b : Bytes) → is_known a ≡ true → is_known b ≡ true → order a ≡ order b → equal a b ≡ true
unfolding is_known order
order_inj a b h k e = ground (
  arith,
  equal_iff a tel,
  equal_iff a mailto,
  equal_iff a group,
  equal_iff a group_participants,
  equal_iff b tel,
  equal_iff b mailto,
  equal_iff b group,
  equal_iff b group_participants,
  equal_iff a urn,
  equal_iff b urn,
  equal_iff a b,
)

is_less_asym :
    (u v : ParsedUri) → IsKnown u → IsKnown v → is_less u v ≡ false → is_less v u ≡ false → u ≡ v
unfolding is_less compare_uri
is_less_asym u v k k' h h' = ground (
  arith,
  equal_iff u.scheme v.scheme,
  equal_iff v.scheme u.scheme,
  order_inj u.scheme v.scheme,
  compare_bytes-eq u.identifier v.identifier,
  compare_bytes-gt u.identifier v.identifier,
)

is_less_trans :
    (u v w : ParsedUri)
    → IsKnown u
    → IsKnown v
    → IsKnown w
    → is_less u v ≡ true
    → is_less v w ≡ true
    → is_less u w ≡ true
unfolding is_less compare_uri
is_less_trans u v w k k' k'' h h' = ground (
  arith,
  equal_iff u.scheme v.scheme,
  equal_iff v.scheme w.scheme,
  equal_iff u.scheme w.scheme,
  order_inj u.scheme w.scheme,
  order_inj u.scheme v.scheme,
  compare_bytes_trans u.identifier v.identifier w.identifier,
)

All-insert :
    (P : ParsedUri → Type 0) (u : ParsedUri) (vs : List ParsedUri)
    → P u
    → All P vs
    → All P (insert u vs)
unfolding insert
All-insert P u [] h a = (h, tt)
All-insert P u (v ∷ vs) h a = elim (Bool-cases (is_less v u)) [
  | inl e ↦ rw e (a.0, All-insert P u vs h a.1)
  | inr e ↦ rw e (h, a)
]

All-insertion_sort :
    (P : ParsedUri → Type 0) (us : List ParsedUri) → All P us → All P (insertion_sort us)
unfolding insertion_sort
All-insertion_sort P [] a = tt
All-insertion_sort P (u ∷ us) a =
    All-insert P u (insertion_sort us) a.0 (All-insertion_sort P us a.1)

compare_bytes_refl : (a : Bytes) → compare_bytes a a ≡ eq
unfolding compare_bytes
compare_bytes_refl [] = refl
compare_bytes_refl (x ∷ xs) = ground (arith, compare_bytes_refl xs)

is_less_irrefl : (u : ParsedUri) → is_less u u ≡ false
unfolding is_less compare_uri
is_less_irrefl u = ground (arith, compare_bytes_refl u.identifier, equal_iff u.scheme u.scheme)

is_less_once : (a b : ParsedUri) → IsKnown a → IsKnown b → is_less a b ≡ true → is_less b a ≡ false
is_less_once a b k k' h = elim (Bool-cases (is_less b a)) [
  | inl e ↦ absurd (ground (arith, is_less_trans a b a k k' k h e, is_less_irrefl a))
  | inr e ↦ e
]

insert_first :
    (a b : ParsedUri) (vs : List ParsedUri)
    → IsKnown a
    → IsKnown b
    → All IsKnown vs
    → is_less a b ≡ true
    → insert a (insert b vs) ≡ insert b (insert a vs)
unfolding insert
insert_first a b [] k k' h l = rw (is_less_once a b k k' l) (rw l refl)
insert_first a b (v ∷ vs) k k' h l = elim (Bool-cases (is_less v a)) [
  | inl e ↦
      rw (is_less_trans v a b h.0 k k' e l)
        (rw e (rw (is_less_trans v a b h.0 k k' e l) (ap (◌∷◌ v) (insert_first a b vs k k' h.1 l))))
  | inr e ↦ elim (Bool-cases (is_less v b)) [
    | inl f ↦ rw f (rw e (rw l (rw f refl)))
    | inr f ↦ rw f (rw e (rw (is_less_once a b k k' l) (rw l (rw f refl))))
  ]
]

insert_comm :
    (a b : ParsedUri) (vs : List ParsedUri)
    → IsKnown a
    → IsKnown b
    → All IsKnown vs
    → insert a (insert b vs) ≡ insert b (insert a vs)
insert_comm a b vs k k' h = elim (Bool-cases (is_less a b)) [
  | inl e ↦ insert_first a b vs k k' h e
  | inr e ↦ elim (Bool-cases (is_less b a)) [
    | inl f ↦ sym (insert_first b a vs k' k h f)
    | inr f ↦ rw (is_less_asym a b k k' e f) refl
  ]
]

All-perm : (P : ParsedUri → Type 0) {us vs : List ParsedUri} → Permᴰ us vs → All P us → All P vs
All-perm P Permᴰ.nil h = tt
All-perm P (Permᴰ.cons e p) h = (subst P (e) h.0, All-perm P p h.1)
All-perm P (Permᴰ.swap e f) h = (subst P (f) h.1.0, (subst P (e) h.0, h.1.1))
All-perm P (Permᴰ.trans p q) h = All-perm P q (All-perm P p h)

insertion_sort-perm :
    {us vs : List ParsedUri} → Permᴰ us vs → All IsKnown us → insertion_sort us ≡ insertion_sort vs
unfolding insertion_sort
insertion_sort-perm Permᴰ.nil h = refl
insertion_sort-perm (Permᴰ.cons {l₂ = vs} e p) h = rw (e, insertion_sort-perm p h.1) refl
insertion_sort-perm (Permᴰ.swap {a = a} {b = b} {l = l} e f) h =
    rw (← e)
      (rw (← f) (insert_comm a b (insertion_sort l) h.0 h.1.0 (All-insertion_sort IsKnown l h.1.1)))
insertion_sort-perm (Permᴰ.trans p q) h =
    insertion_sort-perm p h ∙ insertion_sort-perm q (All-perm IsKnown p h)

ParsedUris-set : IsSet (List ParsedUri)
ParsedUris-set = hlevel

-- `Sort` gives the same list for the same URIs in any order, if their schemes are among those that
-- `validateURI` accepts.
pub sort-perm : (us vs : List ParsedUri) → Perm us vs → All IsKnown us → sort us ≡ sort vs
unfolding sort
sort-perm us vs p h =
    ∥∥₁_elim p (ParsedUris-set (sort us) (sort vs)) λ d. ap compact (insertion_sort-perm d h)

pub validate_uri-IsKnown :
    (scheme identifier : Bytes) (u : ParsedUri) → validate_uri scheme identifier ≡ ok u → IsKnown u
unfolding validate_uri is_known order
validate_uri-IsKnown scheme identifier u h = ground (
  arith,
  equal_iff scheme tel,
  equal_iff scheme mailto,
  equal_iff scheme group,
  equal_iff scheme group_participants,
  equal_iff scheme urn,
)
