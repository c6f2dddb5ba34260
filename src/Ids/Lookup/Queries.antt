-- ===== src/Ids/Lookup/Queries.antt =====
-- What a call of `LookupServer` does to the network and what its answer is like, by induction on
-- the splits: for any invariant of the network and any property of an answer that the halves of a
-- split hand on.
use imessage_for_me.Base.{
  ℕ, zero, suc, ◌-◌, ◌/◌, ◌≤◌, ◌≡◌, refl, Bool, true, false, not, ◌&&◌, List, Option, none, some,
  Bytes, ltb, length, take, drop, length-drop, length-take_le, arith, if_elim,
}
use imessage_for_me.Uri.{ParsedUri}
use imessage_for_me.Uri.Order.Sorted.{contains}
use imessage_for_me.Ids.Cache.{hour}
use imessage_for_me.Ids.Lookup.{
  Results, Network, Registration, registered, unregistered, LookupError, out_of_fuel, LookupUser,
  Answer, answer, failure, reply_answer, copy_results, refresh_credentials, too_large,
  register_error, second_half, Outcome, Attempt, finished, must_split, then_second, resumed,
  split_lookup_server, exchanged, actually_lookup_server, auth_id_cert_pair, after_registration,
  refreshed_lookup, judged, attempt, lookup_server,
}

abbrev pub ran_out : LookupError → Bool
ran_out out_of_fuel = true
ran_out e = false

two_of : (b : Bool) (n : ℕ) → (b && ltb 1 n) ≡ true → 2 ≤ n
two_of b n l = ground arith

over : (n : ℕ) → ltb 20 n ≡ true → 2 ≤ n
over n l = ground arith

upto : (n : ℕ) → ltb 20 n ≡ false → n ≤ 20
upto n l = ground arith

halves : (n : ℕ) → 2 ≤ n → (n / 2 ≤ n) × (1 ≤ n / 2)
halves n two = (omega arith, omega arith)

module _ {W : Type 0} (net : Network W) (Inv : W → Type 0)
    (Fits : List ParsedUri → Results → Type 0) where
  -- An answer that has the property, or an error of the source.
  abbrev pub Fitting : List ParsedUri → Answer → Type 0
  Fitting uris (answer rs) = Fits uris rs
  Fitting uris (failure e) = ran_out e ≡ false

  abbrev pub After : List ParsedUri → Outcome W → Type 0
  After uris (a, (u, w)) = Inv w × Fitting uris a

  abbrev Tried : List ParsedUri → Attempt W → Type 0
  Tried uris (finished a s) = After uris (a, s)
  Tried uris (must_split (u, w)) = Inv w × (2 ≤ length uris)

  register_error-kind : (s : ℕ) → ran_out (register_error s) ≡ false
  register_error-kind s = ground arith

  module _
      (asked : (cert : Bytes) (own : ParsedUri) (uris : List ParsedUri) (w : W)
        → length uris ≤ 20
        → Inv w
        → Inv (net.exchange cert own uris w).1
          × Fitting uris (
              reply_answer
                (net.clock (net.exchange cert own uris w).1)
                (net.exchange cert own uris w).0))
      (registers : (w : W) → Inv w → Inv (net.register w).1)
      (joined : (n : ℕ) (uris : List ParsedUri) (front back : Results)
        → Fits (take n uris) front
        → Fits (drop n uris) back
        → Fits uris (copy_results front back)) where
    exchanged-After :
        (o : Option Bytes) (own : ParsedUri) (uris : List ParsedUri) (w : W)
        → length uris ≤ 20
        → Inv w
        → Inv (exchanged net o own uris w).1 × Fitting uris (exchanged net o own uris w).0
    exchanged-After none own uris w short i = (i, refl)
    exchanged-After (some cert) own uris w short i = asked cert own uris w short i

    after_registration-After :
        (own : ParsedUri) (uris : List ParsedUri) (u : LookupUser) (r : Registration) (w : W)
        → length uris ≤ 20
        → Inv w
        → After uris (after_registration net own uris u (r, w))
    unfolding actually_lookup_server
    after_registration-After own uris u (unregistered s) w short i = (i, register_error-kind s)
    after_registration-After own uris u (registered handles certs) w short i =
        if_elim (After uris) (not (contains handles own)) (λ e. (i, refl))
          (λ e. exchanged-After (auth_id_cert_pair _ own) own uris w short i)

    refreshed-After :
        (own : ParsedUri) (uris : List ParsedUri) (a : Answer) (u : LookupUser) (w : W)
        → length uris ≤ 20
        → Inv w
        → Fitting uris a
        → After uris (refreshed_lookup net own uris a u w)
    unfolding refreshed_lookup
    refreshed-After own uris a u w short i f =
        if_elim (After uris)
          (ltb (net.clock w - u.last_lookup_reregister) hour && ltb 1 (suc u.lookup_error_count))
          (λ e. (i, f))
          (λ e.
            after_registration-After own uris
              (record u { lookup_error_count = suc u.lookup_error_count }) (net.register w).0
              (net.register w).1 short (registers w i))

    judged-Tried :
        (own : ParsedUri) (uris : List ParsedUri) (u : LookupUser) (a : Answer) (w : W)
        → length uris ≤ 20
        → Inv w
        → Fitting uris a
        → Tried uris (judged net own uris u (a, w))
    judged-Tried own uris u a w short i f =
        if_elim (Tried uris) (refresh_credentials a) (λ e. refreshed-After own uris a u w short i f)
          (λ e.
            if_elim (Tried uris) (too_large a && ltb 1 (length uris))
              (λ l. (i, two_of (too_large a) (length uris) l)) (λ l. (i, f)))

    attempt-Tried :
        (own : ParsedUri) (uris : List ParsedUri) (u : LookupUser) (w : W)
        → Inv w
        → Tried uris (attempt net own uris (u, w))
    unfolding attempt actually_lookup_server
    attempt-Tried own uris u w i =
        if_elim (Tried uris) (ltb 20 (length uris)) (λ l. (i, over (length uris) l))
          (λ l.
            let (i', f) =
              exchanged-After (auth_id_cert_pair u own) own uris w (upto (length uris) l) i in
            judged-Tried own uris u _ _ (upto (length uris) l) i' f)

    second_half-Fitting :
        (n : ℕ) (uris : List ParsedUri) (front : Results) (a : Answer)
        → Fits (take n uris) front
        → Fitting (drop n uris) a
        → Fitting uris (second_half front a)
    second_half-Fitting n uris front (answer back) f g = joined n uris front back f g
    second_half-Fitting n uris front (failure e) f g = g

    then_second-After :
        (n : ℕ) (uris : List ParsedUri) (second : LookupUser × W → Outcome W) (a : Answer)
        (u : LookupUser) (w : W)
        → After (take n uris) (a, (u, w))
        → ((v : LookupUser) (x : W) → Inv x → After (drop n uris) (second (v, x)))
        → After uris (then_second second (a, (u, w)))
    then_second-After n uris second (answer front) u w (i, f) rest =
        let (i', g) = rest u w i in (i', second_half-Fitting n uris front _ f g)
    then_second-After n uris second (failure e) u w after rest = after

    split-After :
        (part : List ParsedUri → LookupUser × W → Outcome W) (uris : List ParsedUri)
        (u : LookupUser) (w : W)
        → ((us : List ParsedUri) (v : LookupUser) (x : W)
            → suc (length us) ≤ length uris
            → Inv x
            → After us (part us (v, x)))
        → 2 ≤ length uris
        → Inv w
        → After uris (split_lookup_server part uris (u, w))
    unfolding split_lookup_server
    split-After part uris u w each two i =
        let n = length uris / 2 in
        let (half, more) = halves (length uris) two in
        then_second-After n uris (part (drop n uris)) _ _ _
          (each (take n uris) u w (omega (arith, length-take_le n uris half)) i)
          (λ v x j. each (drop n uris) v x (omega (arith, length-drop n uris)) j)

    resumed-After :
        (part : List ParsedUri → LookupUser × W → Outcome W) (uris : List ParsedUri) (t : Attempt W)
        → ((us : List ParsedUri) (v : LookupUser) (x : W)
            → suc (length us) ≤ length uris
            → Inv x
            → After us (part us (v, x)))
        → Tried uris t
        → After uris (resumed part uris t)
    resumed-After part uris (finished a s) each h = h
    resumed-After part uris (must_split (u, w)) each (i, two) = split-After part uris u w each two i

    pub lookup_server-After :
        (n : ℕ) (own : ParsedUri) (uris : List ParsedUri) (u : LookupUser) (w : W)
        → length uris ≤ n
        → Inv w
        → After uris (lookup_server net (suc n) own uris (u, w))
    unfolding lookup_server
    lookup_server-After zero own uris u w enough i =
        resumed-After (lookup_server net zero own) uris (attempt net own uris (u, w))
          (λ us v x short j. absurd (omega arith)) (attempt-Tried own uris u w i)
    lookup_server-After (suc n) own uris u w enough i =
        resumed-After (lookup_server net (suc n) own) uris (attempt net own uris (u, w))
          (λ us v x short j. lookup_server-After n own us v x (omega arith) j)
          (attempt-Tried own uris u w i)
