-- ===== src/Archive/Ranked/Ended.antt =====
-- The recursion of `Parse` ends on ranked archives.
use imessage_for_me.Base.{
  ℕ, zero, suc, ◌<◌, ◌&&◌, Option, none, some, Bytes, codes, equal, arith, if_elim, if◌then◌else◌,
  Bool, true, false,
}
use imessage_for_me.Apns.Payload.{Run, returned, panicked, out_of_fuel, ◌>>=◌}
use imessage_for_me.Archive.{
  Value, null, text, uid, array, dict, Values, no_values, value, Entries, no_entries, entry, get,
  set, remove, Objects, get_elem?, modify, Parser, as_uid, as_array, as_text, parse_pairs,
  parse_entries, parse_map, parse_object, parse, has, stored,
}
use imessage_for_me.Archive.Ranked.{
  Ends, Ends-bind, ReferIn, IsRanked, Refer, ReferAll, ReferIn-mono, ReferEntries, ReferEntries-set,
  ReferEntries-remove, get-Found, as_array-Ends, as_uid-Ends, as_text-Ends, Below, FoundObject,
  get_elem?-RankedFrom, modify-RankedFrom,
}

module _ (rank : ℕ → ℕ) where
  -- What a call leaves: a value that refers below a rank, and ranked objects.
  abbrev Left : ℕ → Value × Objects → Type 0
  Left k (v, objs) = ReferIn (Below rank k) v × IsRanked rank objs

  -- The calls below a rank end so.
  abbrev EndsBelow : Parser → ℕ → Type 0
  EndsBelow p k =
      (n : ℕ) (objs : Objects) → rank n < k → IsRanked rank objs → Ends (Left (rank n)) (p n objs)

  weaken :
      (k n : ℕ) (o : Run (Value × Objects)) → rank n < k → Ends (Left (rank n)) o → Ends (Left k) o
  weaken k n (returned (v, objs)) b e =
      (ReferIn-mono (Below rank (rank n)) (Below rank k) v (λ m c. omega (arith, b, c)) e.0, e.1)
  weaken k n panicked b e = tt
  weaken k n out_of_fuel b e = e

  -- A call for a reference of an object, and what goes on with its value.
  call-Ends {ℓ} :
      {B : Type ℓ} (p : Parser) (k : ℕ) (v : Value) (objs : Objects) (Q : B → Type 0)
      (f : Value × Objects → Run B)
      → EndsBelow p k
      → Refer (Below rank k) v
      → IsRanked rank objs
      → ((x : Value) (o : Objects) → ReferIn (Below rank k) x → IsRanked rank o → Ends Q (f (x, o)))
      → Ends Q (as_uid v >>= λ n. p n objs >>= f)
  call-Ends p k v objs Q f ends h r go =
      Ends-bind (Below rank k) Q (as_uid v) _ (as_uid-Ends _ v h) λ n b.
        Ends-bind (Left k) Q (p n objs) f (weaken k n (p n objs) b (ends n objs b r))
          λ (x, o) l. go x o l.0 l.1

  parse_pairs-Ends :
      (p : Parser) (k : ℕ) (ks vs : Values) (out : Entries) (objs : Objects)
      → EndsBelow p k
      → ReferAll (Below rank k) ks
      → ReferAll (Below rank k) vs
      → IsRanked rank objs
      → Ends (Left k) (parse_pairs p ks vs out objs)
  unfolding parse_pairs
  parse_pairs-Ends p k no_values vs out objs ends a b r = (tt, r)
  parse_pairs-Ends p k (value x ks) no_values out objs ends a b r =
      call-Ends p k x objs (Left k) _ ends a.0 r λ key o q r'. tt
  parse_pairs-Ends p k (value x ks) (value v vs) out objs ends a b r =
      call-Ends p k x objs (Left k) _ ends a.0 r λ key o q r'.
        Ends-bind (λ _. Unit {0}) (Left k) (as_text key) _ (as_text-Ends key)
          λ s t.
            call-Ends p k v o (Left k) _ ends b.0 r'
              λ y o' q' r''. parse_pairs-Ends p k ks vs (set s y out) o' ends a.1 b.1 r''

  stepped-IsRanked :
      (n : ℕ) (k : Bytes) (objs : Objects) (b : Bool)
      → IsRanked rank objs
      → IsRanked rank (if b then modify n (remove k) objs else objs)
  stepped-IsRanked n k objs true r =
      modify-RankedFrom rank n 0 n (remove k) objs (omega arith)
        (λ es a. ReferEntries-remove (Below rank (rank n)) k es a) r
  stepped-IsRanked n k objs false r = r

  parse_entries-Ends :
      (p : Parser) (n : ℕ) (es : Entries) (objs : Objects)
      → EndsBelow p (rank n)
      → ReferEntries (Below rank (rank n)) es
      → IsRanked rank objs
      → Ends (IsRanked rank) (parse_entries p n es objs)
  unfolding parse_entries
  parse_entries-Ends p n no_entries objs ends a r = r
  parse_entries-Ends p n (entry k (uid m) es) objs ends a r =
      if_elim (Ends (IsRanked rank)) (equal k (codes "$class"))
        (λ e. parse_entries-Ends p n es _ ends a.1 (stepped-IsRanked n k objs true r))
        λ e. call-Ends p (rank n) (uid m) objs (IsRanked rank) _ ends a.0 r λ x o q r'.
          parse_entries-Ends p n es (modify n (set k x) o) ends a.1 (
            modify-RankedFrom rank n 0 n (set k x) o (omega arith)
              (λ es' a'. ReferEntries-set (Below rank (rank n)) k x es' q a') r')
  parse_entries-Ends p n (entry k null es) objs ends a r =
      parse_entries-Ends p n es _ ends a.1 (stepped-IsRanked n k objs (equal k (codes "$class")) r)
  parse_entries-Ends p n (entry k _ es) objs ends a r =
      parse_entries-Ends p n es _ ends a.1 (stepped-IsRanked n k objs (equal k (codes "$class")) r)

  stored-Ends : (n : ℕ) (objs : Objects) → IsRanked rank objs → Ends (Left (rank n)) (stored n objs)
  stored-Ends n objs r =
      by_object (get_elem? objs n) (get_elem?-RankedFrom rank n 0 n objs (omega arith) r)
    where
      by_object :
          (o : Option Value)
          → FoundObject (Below rank (rank n)) o
          → Ends (Left (rank n)) (elim o [ none ↦ panicked | some v ↦ returned (v, objs) ])
      by_object none a = tt
      by_object (some (uid m)) a = (a, r)
      by_object (some (array vs)) a = (a, r)
      by_object (some _) a = (tt, r)

  parse_map-Ends :
      (p : Parser) (n : ℕ) (es : Entries) (objs : Objects)
      → EndsBelow p (rank n)
      → ReferEntries (Below rank (rank n)) es
      → IsRanked rank objs
      → Ends (Left (rank n)) (parse_map p n es objs)
  unfolding parse_map
  parse_map-Ends p n es objs ends a r =
      if_elim (Ends (Left (rank n))) (has (codes "NS.keys") es && has (codes "NS.objects") es)
        (λ e.
          Ends-bind (ReferAll (Below rank (rank n))) (Left (rank n))
            (as_array (get (codes "NS.objects") es)) _
            (as_array-Ends _ (get (codes "NS.objects") es) (get-Found _ (codes "NS.objects") es a))
            λ vs b.
              Ends-bind (ReferAll (Below rank (rank n))) (Left (rank n))
                (as_array (get (codes "NS.keys") es)) _
                (as_array-Ends _ (get (codes "NS.keys") es) (get-Found _ (codes "NS.keys") es a))
                λ ks c. parse_pairs-Ends p (rank n) ks vs no_entries objs ends c b r)
        (λ e.
          Ends-bind (IsRanked rank) (Left (rank n)) (parse_entries p n es objs) _
            (parse_entries-Ends p n es objs ends a r) λ o r'. stored-Ends n o r')

  parse_object-Ends :
      (p : Parser) (n : ℕ) (o : Option Value) (objs : Objects)
      → EndsBelow p (rank n)
      → FoundObject (Below rank (rank n)) o
      → IsRanked rank objs
      → Ends (Left (rank n)) (parse_object p n o objs)
  unfolding parse_object
  parse_object-Ends p n none objs ends a r = tt
  parse_object-Ends p n (some (text s)) objs ends a r =
      if_elim (λ v. Ends (Left (rank n)) (returned (v, objs))) (equal s (codes "$null"))
        (λ e. (tt, r)) λ e. (tt, r)
  parse_object-Ends p n (some (dict es)) objs ends a r = parse_map-Ends p n es objs ends a r
  parse_object-Ends p n (some (uid m)) objs ends a r = (a, r)
  parse_object-Ends p n (some (array vs)) objs ends a r = (a, r)
  parse_object-Ends p n (some _) objs ends a r = (tt, r)

  -- If every object of an archive refers to objects of a lower rank only, `Parse` of an object comes
  -- to an end within one call more than its rank: it returns a value or panics, and it leaves objects
  -- that are ranked as before.
  pub parse-Ends :
      (fuel n : ℕ) (objs : Objects)
      → rank n < fuel
      → IsRanked rank objs
      → Ends
          (λ (v, objs'). ReferIn (λ m. rank m < rank n) v × IsRanked rank objs')
          (parse fuel n objs)
  unfolding parse
  parse-Ends zero n objs h r = absurd (omega arith)
  parse-Ends (suc fuel) n objs h r =
      parse_object-Ends (parse fuel) n (get_elem? objs n) objs
        (λ m o b r'. parse-Ends fuel m o (omega (arith, h, b)) r')
        (get_elem?-RankedFrom rank n 0 n objs (omega arith) r) r
