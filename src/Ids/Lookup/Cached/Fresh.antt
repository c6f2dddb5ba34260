-- ===== src/Ids/Lookup/Cached/Fresh.antt =====
-- `Lookup`: what it asks the server for, and when the cache answers alone.
use imessage_for_me.Base.{
  ℕ, ◌+◌, ◌*◌, ◌≤◌, ◌≡◌, ◌↔◌, ◌⊎◌, inl, inr, refl, true, false, List, [], ◌∷◌, ◌++◌, Option, none,
  some, is_some, is_nil, All, arith, if_elim,
}
use imessage_for_me.Base.Assoc.{find, put}
use imessage_for_me.Ids.Cache.Many.{find-get_many}
use imessage_for_me.Uri.{ParsedUri, same_uri}
use imessage_for_me.Uri.Order.Sorted.{uri_key, contains, All-contains, contains-All}
use imessage_for_me.Ids.Cache.{
  LookupResult, Memory, tuple_key, memory_get, memory_get_many, put_found, hour, day,
}
use imessage_for_me.Ids.Lookup.{Results, Network, LookupUser}
use imessage_for_me.Ids.Lookup.Coverage.{Covers}
use imessage_for_me.Ids.Lookup.Cached.{
  LookupParams, is_expired, will_relookup, is_looked_up, sort_out, missing, ask_remaining, lookup,
}

-- A cached result that answers a lookup: not older than a week, and, unless the cache is to be used
-- in any case, not older than a day, or an hour where it has no identities, in a lookup that is not
-- forced.
pub record IsFresh (params : LookupParams) (now : ℕ) (r : LookupResult) : Type 0 where
  pub not_expired : now ≤ r.time + 7 * day
  pub is_recent :
      (params.always_use_cache ≡ true)
      ⊎ ((params.force ≡ false)
          × (now ≤ r.time + day)
          × ((is_nil r.identities ≡ false) ⊎ (now ≤ r.time + hour)))

abbrev pub Answers : LookupParams → ℕ → Option LookupResult → Type 0
Answers params now none = ⊥
Answers params now (some r) = IsFresh params now r

fresh_lem :
    (params : LookupParams) (now : ℕ) (r : LookupResult)
    → IsFresh params now r
    → is_looked_up params now r ≡ false
unfolding is_looked_up will_relookup is_expired
fresh_lem params now r f = elim f.is_recent [
  | inl a ↦ ground (arith, f.not_expired, a)
  | inr (u, a, inl n) ↦ ground (arith, f.not_expired, u, a, n)
  | inr (u, a, inr n) ↦ ground (arith, f.not_expired, u, a, n)
]

abbrev AllFresh : LookupParams → ℕ → Results → Type 0
AllFresh params now = All (λ e. is_looked_up params now e.1 ≡ false)

sort_out-fresh :
    (params : LookupParams) (now : ℕ) (cached : Results)
    → AllFresh params now cached
    → sort_out params now cached ≡ (cached, [])
unfolding sort_out is_looked_up
sort_out-fresh params now [] h = refl
sort_out-fresh params now ((u, r) ∷ cached) h =
    rw (sort_out-fresh params now cached h.1) (ground (arith, h.0))

All-put :
    (P : ParsedUri × LookupResult → Type 0) (u : ParsedUri) (r : LookupResult) (cached : Results)
    → P (u, r)
    → All P cached
    → All P (put u r cached)
unfolding put
All-put P u r [] f h = (f, tt)
All-put P u r ((v, s) ∷ cached) f h =
    if_elim (All P) (same_uri v u) (λ e. (f, h.1)) (λ e. (h.0, All-put P u r cached f h.1))

get_many-fresh :
    (params : LookupParams) (now : ℕ) (m : Memory) (own : ParsedUri) (uris : List ParsedUri)
    → All (λ u. Answers params now (memory_get m own u)) uris
    → AllFresh params now (memory_get_many m own uris)
unfolding memory_get_many memory_get
get_many-fresh params now m own [] f = tt
get_many-fresh params now m own (u ∷ us) f =
    by_found (find (own, u) m) f.0 (get_many-fresh params now m own us f.1)
  where
    by_found :
        (o : Option LookupResult)
        → Answers params now o
        → AllFresh params now (memory_get_many m own us)
        → AllFresh params now (put_found u o (memory_get_many m own us))
    by_found none a h = h
    by_found (some r) a h =
        All-put (λ e. is_looked_up params now e.1 ≡ false) u r _ (fresh_lem params now r a) h

Answers-some :
    (params : LookupParams) (now : ℕ) (o : Option LookupResult)
    → Answers params now o
    → is_some o ≡ true
Answers-some params now none h = absurd h
Answers-some params now (some r) h = refl

missing_covered :
    (us : List ParsedUri) (cached : Results) → Covers us cached → missing us cached ≡ []
unfolding missing
missing_covered [] cached c = refl
missing_covered (u ∷ us) cached c = rw (missing_covered us cached c.1, c.0) refl

get_many-Covers :
    (params : LookupParams) (now : ℕ) (m : Memory) (own : ParsedUri) (uris : List ParsedUri)
    → All (λ u. Answers params now (memory_get m own u)) uris
    → Covers uris (memory_get_many m own uris)
get_many-Covers params now m own uris f = All-contains uris (λ u c.
    rw (find-get_many own u uris m, c)
      (Answers-some params now (memory_get m own u) (contains-All _ uris u f c)))

-- The cached results are those of URIs that are asked for.
abbrev IsCached : Memory → ParsedUri → List ParsedUri → ParsedUri × LookupResult → Type 0
IsCached m own uris e = (contains uris e.0 ≡ true) × (memory_get m own e.0 ≡ some e.1)

-- What a lookup keeps of the cache and asks the server for: what it keeps is not older than a week,
-- and it asks for the URIs for which the cache has no result that answers.
pub record IsAsked {W : Type 0} (net : Network W) (own : ParsedUri) (params : LookupParams)
    (uris : List ParsedUri) (u : LookupUser) (w : W) (kept : Results) (asked : List ParsedUri)
    : Type 0 where
  pub is_lookup : lookup net own params uris (u, w) ≡ ask_remaining net own kept asked (u, w)
  pub unexpired : All (λ e. net.clock w ≤ e.1.time + 7 * day) kept
  pub is_asked :
      (v : ParsedUri)
      → (contains asked v ≡ true) ↔ (
          (contains uris v ≡ true)
          × ¬ Answers params (net.clock w) (memory_get u.lookup_cache own v))

module _ (params : LookupParams) (now : ℕ) (m : Memory) (own : ParsedUri) (uris : List ParsedUri)
    (v : ParsedUri) where
  abbrev cached : Results
  cached = memory_get_many m own uris

  abbrev asked_of : List ParsedUri
  asked_of = (sort_out params now cached).1 ++ missing uris cached

-- Where the cache has a result that answers for each URI and no limiter is set, the lookup returns
-- the cached results, and neither asks the server nor changes the cache.
pub lookup_fresh :
    {W : Type 0} (net : Network W) (own : ParsedUri) (params : LookupParams) (uris : List ParsedUri)
    (u : LookupUser) (w : W)
    → params.limited ≡ false
    → All (λ v. Answers params (net.clock w) (memory_get u.lookup_cache own v)) uris
    → lookup net own params uris (u, w) ≡ ((memory_get_many u.lookup_cache own uris, none), (u, w))
unfolding lookup ask_remaining
lookup_fresh net own params uris u w free fresh =
    let now = net.clock w in
    let cached = memory_get_many u.lookup_cache own uris in
    rw
      (
        sort_out-fresh params now cached (get_many-fresh params now u.lookup_cache own uris fresh),
        missing_covered uris cached (get_many-Covers params now u.lookup_cache own uris fresh),
        free,
      )
      refl
