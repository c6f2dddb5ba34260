-- ===== src/Uri/Order.antt =====
-- `Compare` and `Sort` of uri.go. `slices.SortFunc` is here the insertion sort that it uses on short
-- lists; `slices.Compact` drops an element that equals the one in front of it.
pub mod Canonical
pub mod Known
pub mod Sorted
use Prim.Native.Nat.{compare, Ordering, lt, eq, gt}
use imessage_for_me.Base.{ℕ, ◌+◌, Bool, true, false, List, [], ◌∷◌, Bytes, equal, if◌then◌else◌}
use imessage_for_me.Uri.{ParsedUri, order, same_uri}

-- `strings.Compare`, byte by byte.
unfoldable pub compare_bytes : Bytes → Bytes → Ordering
compare_bytes [] [] = eq
compare_bytes [] (y ∷ ys) = lt
compare_bytes (x ∷ xs) [] = gt
compare_bytes (x ∷ xs) (y ∷ ys) = elim (compare x y) [
  | Ordering.lt ↦ lt
  | Ordering.eq ↦ compare_bytes xs ys
  | Ordering.gt ↦ gt
]

unfoldable pub compare_uri : ParsedUri → ParsedUri → Ordering
compare_uri a b =
    if equal a.scheme b.scheme
    then compare_bytes a.identifier b.identifier
    else compare (order a.scheme) (order b.scheme)

unfoldable pub is_less : ParsedUri → ParsedUri → Bool
is_less a b = elim (compare_uri a b) [ Ordering.lt ↦ true | _ ↦ false ]

unfoldable pub insert : ParsedUri → List ParsedUri → List ParsedUri
insert u [] = u ∷ []
insert u (v ∷ vs) = if is_less v u then v ∷ insert u vs else u ∷ v ∷ vs

unfoldable pub insertion_sort : List ParsedUri → List ParsedUri
insertion_sort [] = []
insertion_sort (u ∷ us) = insert u (insertion_sort us)

-- `slices.Compact`: the flag of the source's loop is that the next element equals this one.
unfoldable pub compact_from : ParsedUri → List ParsedUri → List ParsedUri
compact_from u [] = u ∷ []
compact_from u (v ∷ vs) = let rest = compact_from v vs in if same_uri u v then rest else u ∷ rest

unfoldable pub compact : List ParsedUri → List ParsedUri
compact [] = []
compact (u ∷ us) = compact_from u us

unfoldable pub sort : List ParsedUri → List ParsedUri
sort us = compact (insertion_sort us)
