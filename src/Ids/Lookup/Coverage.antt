-- ===== src/Ids/Lookup/Coverage.antt =====
-- Which requests `LookupServer` sends, and which URIs its answer speaks of.
use imessage_for_me.Base.{
  ℕ, zero, suc, ◌≤◌, ◌≡◌, refl, ◌≢◌, Bool, true, false, ◌||◌, List, [], ◌∷◌, none, some, Bytes,
  length, take, drop, All, arith, is_some,
}
use imessage_for_me.Base.Assoc.{find, put, find-put}
use imessage_for_me.Uri.{ParsedUri}
use imessage_for_me.Uri.Order.Sorted.{uri_key}
use imessage_for_me.Ids.Lookup.{
  Results, Network, Reply, not_sent, cancelled, timed_out, replied, LookupUser, Answer, answer,
  failure, out_of_fuel, reply_answer, copy_results, lookup_server,
}
use imessage_for_me.Ids.Lookup.Queries.{Fitting, ran_out, lookup_server-After}

-- Each of the URIs has a result.
abbrev pub Covers : List ParsedUri → Results → Type 0
Covers uris rs = All (λ u. is_some (find u rs) ≡ true) uris

find-copy :
    (u : ParsedUri) (rs done : Results)
    → is_some (find u (copy_results done rs)) ≡ (is_some (find u done) || is_some (find u rs))
unfolding copy_results find
find-copy u [] done = ground arith
find-copy u ((v, r) ∷ rs) done = ground (arith, find-copy u rs (put v r done), find-put v u r done)

Covers-copy :
    (n : ℕ) (uris : List ParsedUri) (front back : Results)
    → Covers (take n uris) front
    → Covers (drop n uris) back
    → Covers uris (copy_results front back)
Covers-copy zero [] front back f g = tt
Covers-copy zero (u ∷ us) front back f g =
    (ground (arith, find-copy u back front, g.0), Covers-copy zero us front back tt g.1)
Covers-copy (suc n) [] front back f g = tt
Covers-copy (suc n) (u ∷ us) front back f g =
    (ground (arith, find-copy u back front, f.0), Covers-copy n us front back f.1 g)

abbrev is_out_of_fuel : Answer → Bool
is_out_of_fuel (answer rs) = false
is_out_of_fuel (failure e) = ran_out e

reply_kind : (now : ℕ) (reply : Reply) → is_out_of_fuel (reply_answer now reply) ≡ false
unfolding reply_answer
reply_kind now not_sent = refl
reply_kind now cancelled = refl
reply_kind now timed_out = refl
reply_kind now (replied status none) = ground arith
reply_kind now (replied status (some rs)) = ground arith

module _ {W : Type 0} (net : Network W) (Inv : W → Type 0) where
  answer-Fitting :
      (Fits : List ParsedUri → Results → Type 0) (uris : List ParsedUri) (a : Answer)
      → is_out_of_fuel a ≡ false
      → ((rs : Results) → a ≡ answer rs → Fits uris rs)
      → Fitting net Inv Fits uris a
  answer-Fitting Fits uris (answer rs) k h = h rs refl
  answer-Fitting Fits uris (failure e) k h = k

  not_out_of_fuel :
      (Fits : List ParsedUri → Results → Type 0) (uris : List ParsedUri) (a : Answer)
      → Fitting net Inv Fits uris a
      → a ≢ failure out_of_fuel
  not_out_of_fuel Fits uris (answer rs) f e = cc
  not_out_of_fuel Fits uris (failure x) f e = ground arith

  -- Whatever the network keeps through exchanges of at most 20 URIs and through registrations, a
  -- lookup of any number of URIs keeps, and fuel for their number is enough.
  pub lookup_server-Inv :
      (n : ℕ) (own : ParsedUri) (uris : List ParsedUri) (u : LookupUser) (w : W)
      → ((cert : Bytes) (own' : ParsedUri) (us : List ParsedUri) (x : W)
          → length us ≤ 20
          → Inv x
          → Inv (net.exchange cert own' us x).1)
      → ((x : W) → Inv x → Inv (net.register x).1)
      → length uris ≤ n
      → Inv w
      → Inv (lookup_server net (suc n) own uris (u, w)).1.1
        × ((lookup_server net (suc n) own uris (u, w)).0 ≢ failure out_of_fuel)
  lookup_server-Inv n own uris u w exchanges registers enough i =
      let after =
        lookup_server-After net Inv (λ us rs. Unit)
          (λ cert own' us x short j. (
            exchanges cert own' us x short j,
            answer-Fitting (λ us' rs. Unit) us _ (reply_kind _ _) (λ rs e. tt),
          ))
          registers (λ m us front back f g. tt) n own uris u w enough i in
      (after.0, not_out_of_fuel (λ us rs. Unit) uris _ after.1)

-- Where each exchange that succeeds has a result for each URI it asks for, so has a lookup of any
-- number of URIs that succeeds.
pub lookup_server-Covers :
    {W : Type 0} (net : Network W) (n : ℕ) (own : ParsedUri) (uris : List ParsedUri)
    (u : LookupUser) (w : W) (rs : Results)
    → ((cert : Bytes) (own' : ParsedUri) (us : List ParsedUri) (x : W) (results : Results)
        → reply_answer (net.clock (net.exchange cert own' us x).1) (net.exchange cert own' us x).0
          ≡ answer results
        → Covers us results)
    → length uris ≤ n
    → (lookup_server net (suc n) own uris (u, w)).0 ≡ answer rs
    → Covers uris rs
lookup_server-Covers net n own uris u w rs answers enough e = rw e at (
    (lookup_server-After net (λ x. Unit) Covers
      (λ cert own' us x short j.
        (tt, answer-Fitting net (λ y. Unit) Covers us _ (reply_kind _ _) (answers cert own' us x)))
      (λ x j. tt) Covers-copy n own uris u w enough tt).1)
