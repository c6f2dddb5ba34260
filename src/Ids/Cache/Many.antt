-- ===== src/Ids/Cache/Many.antt =====
-- What `GetMany` of each cache finds for one of the URIs it is asked for.
use imessage_for_me.Uri.Order.Sorted.{uri_key, contains}
use imessage_for_me.Base.{
  ◌≡◌, refl, ◌∙◌, Bool, false, List, [], ◌∷◌, Option, none, some, if◌then◌else◌, Bool-cases, inl,
  inr, arith,
}
use imessage_for_me.Base.Assoc.{find, find-put_self, find-put_ne}
use imessage_for_me.Uri.{ParsedUri, same_uri}
use imessage_for_me.Uri.Order.Sorted.{same_uri_iff}
use imessage_for_me.Ids.Cache.{
  LookupResult, tuple_key, Memory, memory_get, memory_get_many, put_found,
}

put_found_self :
    (u : ParsedUri) (e : Option LookupResult) (b : Bool) (rest : List (ParsedUri × LookupResult))
    → find u rest ≡ (if b then e else none)
    → find u (put_found u e rest) ≡ e
put_found_self u none b rest h = h ∙ ground arith
put_found_self u (some r) b rest h = find-put_self u r rest

put_found_ne :
    (v u : ParsedUri) (e : Option LookupResult) (rest : List (ParsedUri × LookupResult))
    → same_uri v u ≡ false
    → find u (put_found v e rest) ≡ find u rest
put_found_ne v u none rest h = refl
put_found_ne v u (some r) rest h = find-put_ne v u r rest h

pub find-get_many :
    (our u : ParsedUri) (theirs : List ParsedUri) (m : Memory)
    → find u (memory_get_many m our theirs)
      ≡ (if contains theirs u then memory_get m our u else none)
unfolding memory_get_many contains memory_get find
find-get_many our u [] m = refl
find-get_many our u (their ∷ theirs) m = elim (Bool-cases (same_uri their u)) [
  | inl e ↦
      rw (e, (same_uri_iff their u).0 e)
        (put_found_self u (find (our, u) m) (contains theirs u) _ (find-get_many our u theirs m))
  | inr e ↦ rw e (put_found_ne their u (find (our, their) m) _ e ∙ find-get_many our u theirs m)
]
