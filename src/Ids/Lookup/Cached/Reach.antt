-- ===== src/Ids/Lookup/Cached/Reach.antt =====
-- `Lookup`: which URIs its answer speaks of.
use imessage_for_me.Base.{
  ℕ, suc, ◌≡◌, refl, ◌∙◌, true, false, ◌||◌, List, [], ◌∷◌, ◌++◌, none, Bytes, length, is_some,
  arith, Bool-cases, inl, inr,
}
use imessage_for_me.Base.Assoc.{same_refl, find, put, find-put}
use imessage_for_me.Uri.{ParsedUri, same_uri}
use imessage_for_me.Uri.Order.Sorted.{uri_key, contains, same_uri_iff, All-contains, contains-All}
use imessage_for_me.Ids.Cache.{tuple_key, memory_get_many, stamped}
use imessage_for_me.Ids.Lookup.{
  Results, Network, LookupUser, Outcome, answer, failure, reply_answer, lookup_server,
}
use imessage_for_me.Ids.Lookup.Coverage.{Covers, lookup_server-Covers}
use imessage_for_me.Ids.Lookup.Cached.{
  LookupParams, will_relookup, is_looked_up, sort_out, missing, absorb, absorbed, ask_remaining,
  lookup, flagged_as, remember,
}

-- The entries that are kept or asked for again are those of the cache.
sort_out-find :
    (params : LookupParams) (now : ℕ) (u : ParsedUri) (cached : Results)
    → is_some (find u cached) ≡ true
    → (is_some (find u (sort_out params now cached).0) || contains (sort_out params now cached).1 u)
      ≡ true
unfolding sort_out find contains is_looked_up
sort_out-find params now u [] h = ground (arith, h)
sort_out-find params now u ((v, r) ∷ cached) h =
    ground (arith, h, sort_out-find params now u cached)

missing-find :
    (u : ParsedUri) (us : List ParsedUri) (cached : Results)
    → contains us u ≡ true
    → (is_some (find u cached) || contains (missing us cached) u) ≡ true
unfolding missing contains
missing-find u [] cached c = ground (arith, c)
missing-find u (v ∷ us) cached c = elim (Bool-cases (same_uri v u)) [
  | inl e ↦ rw ((same_uri_iff v u).0 e) (ground (arith, same_refl uri_key u))
  | inr e ↦ ground (arith, e, missing-find u us cached (rw e at c))
]

contains-append :
    (u : ParsedUri) (us vs : List ParsedUri)
    → contains (us ++ vs) u ≡ (contains us u || contains vs u)
unfolding contains
contains-append u [] vs = refl
contains-append u (v ∷ us) vs = ground (arith, contains-append u us vs)

absorb-find :
    (now : ℕ) (own u : ParsedUri) (rs cached : Results) (user : LookupUser)
    → is_some (find u (absorb now own rs (cached, user)).0)
      ≡ (is_some (find u cached) || is_some (find u rs))
unfolding absorb
absorb-find now own u [] cached user = unfold find in ground arith
absorb-find now own u ((v, r) ∷ rs) cached user =
    let r' = stamped now (flagged_as (find v cached) r) in
    absorb-find now own u rs (put v r' cached) (remember now own v r' user)
    ∙ rw (find-put v u r' cached) (unfold find in ground arith)

-- The entry of a URI that is asked for stands among the kept ones, or comes from the server.
absorbed-Covers :
    {W : Type 0} (net : Network W) (own : ParsedUri) (uris asked : List ParsedUri) (kept : Results)
    (o : Outcome W)
    → ((u : ParsedUri)
        → contains uris u ≡ true
        → (is_some (find u kept) || contains asked u) ≡ true)
    → ((rs : Results) → o.0 ≡ answer rs → Covers asked rs)
    → (absorbed net own kept o).0.1 ≡ none
    → Covers uris (absorbed net own kept o).0.0
absorbed-Covers net own uris asked kept (failure e, s) each server h = absurd (ground (arith, h))
absorbed-Covers net own uris asked kept (answer rs, (user, w)) each server h =
    All-contains uris (λ u c. ground (
      arith,
      each u c,
      contains-All _ asked u (server rs refl),
      absorb-find (net.clock w) own u rs kept user,
    ))

ask_remaining-Covers :
    {W : Type 0} (net : Network W) (own : ParsedUri) (uris asked : List ParsedUri) (kept : Results)
    (s : LookupUser × W)
    → ((u : ParsedUri)
        → contains uris u ≡ true
        → (is_some (find u kept) || contains asked u) ≡ true)
    → ((rs : Results)
        → (lookup_server net (suc (length asked)) own asked s).0 ≡ answer rs
        → Covers asked rs)
    → (ask_remaining net own kept asked s).0.1 ≡ none
    → Covers uris (ask_remaining net own kept asked s).0.0
unfolding ask_remaining contains
ask_remaining-Covers net own uris [] kept s each server h =
    All-contains uris (λ u c. ground (arith, each u c))
ask_remaining-Covers net own uris (a ∷ rest) kept s each server h =
    absorbed-Covers net own uris (a ∷ rest) kept
      (lookup_server net (suc (length (a ∷ rest))) own (a ∷ rest) s) each server h

-- Where each exchange that succeeds has a result for each URI it asks for, a lookup with no limiter
-- that reports no error has a result for each URI.
pub lookup-Covers :
    {W : Type 0} (net : Network W) (own : ParsedUri) (params : LookupParams) (uris : List ParsedUri)
    (u : LookupUser) (w : W)
    → ((cert : Bytes) (own' : ParsedUri) (us : List ParsedUri) (x : W) (results : Results)
        → reply_answer (net.clock (net.exchange cert own' us x).1) (net.exchange cert own' us x).0
          ≡ answer results
        → Covers us results)
    → params.limited ≡ false
    → (lookup net own params uris (u, w)).0.1 ≡ none
    → Covers uris (lookup net own params uris (u, w)).0.0
unfolding lookup sort_out is_looked_up will_relookup
lookup-Covers net own params uris u w answers free =
    let cached = memory_get_many u.lookup_cache own uris in
    let now = net.clock w in
    rw free (
      ask_remaining-Covers net own uris ((sort_out params now cached).1 ++ missing uris cached)
        (sort_out params now cached).0 (u, w)
        (λ v c. ground (
          arith,
          contains-append v (sort_out params now cached).1 (missing uris cached),
          sort_out-find params now v cached,
          missing-find v uris cached c,
        ))
        (λ rs. lookup_server-Covers net _ own _ u w rs answers (omega arith)))
