-- ===== src/Connector/Reroute/Again.antt =====
-- Rerouting the same handles again.
use imessage_for_me.Base.{
  ℕ, ◌+◌, ◌*◌, ◌≤◌, ◌≡◌, refl, ap, ◌∙◌, Bool, true, false, not, ◌&&◌, List, [], ◌∷◌, Option, none,
  some, arith, is_nil, Bool-cases, inl, inr, if_elim,
}
use mathlib.Core.Path.{subst}
use imessage_for_me.Base.Assoc.{find, put, find-put}
use imessage_for_me.Uri.{ParsedUri, same_uri}
use imessage_for_me.Uri.Order.Sorted.{uri_key, contains, same_uri_iff}
use imessage_for_me.Ids.Cache.{day}
use imessage_for_me.Ids.Lookup.{LookupUser}
use imessage_for_me.Connector.Reroute.{
  RerouteError, no_reroute_url_configured, reroute_ratelimit, handles_rerouted_too_recently,
  History, warrants_reroute, put_all, is_past_limit, after_registering, after_rerouting,
  reroute_and_reregister,
}

put_all-kept :
    (now : ℕ) (us : List ParsedUri) (history : History) (u : ParsedUri)
    → find u history ≡ some now
    → find u (put_all now us history) ≡ some now
unfolding put_all
put_all-kept now [] history u h = h
put_all-kept now (v ∷ us) history u h = put_all-kept now us (put v now history) u (
    find-put v u now history
    ∙ elim (Bool-cases (same_uri v u)) [ inl e ↦ rw e refl | inr e ↦ rw e h ])

put_all-find :
    (now : ℕ) (us : List ParsedUri) (history : History) (u : ParsedUri)
    → contains us u ≡ true
    → find u (put_all now us history) ≡ some now
unfolding contains put_all
put_all-find now [] history u h = absurd (ground (arith, h))
put_all-find now (v ∷ us) history u h = elim (Bool-cases (same_uri v u)) [
  | inl e ↦ put_all-kept now us (put v now history) u (find-put v u now history ∙ rw e refl)
  | inr e ↦ put_all-find now us (put v now history) u (rw e at h)
]

warrants_reroute_recent :
    (now before : ℕ) (history : History) (us : List ParsedUri)
    → ((u : ParsedUri) → contains us u ≡ true → find u history ≡ some before)
    → now ≤ before + 7 * day
    → warrants_reroute now history us ≡ false
unfolding warrants_reroute contains
warrants_reroute_recent now before history [] h k = refl
warrants_reroute_recent now before history (u ∷ us) h k =
    rw (h u (ground (arith, same_uri_iff u u))) (
      ground (
        arith,
        k,
        warrants_reroute_recent now before history us (λ v c. h v (ground (arith, c))) k,
      ))

module _ {W : Type 0} (clock : W → ℕ) (trigger_reroute : W → Bool × W)
    (register_ids : LookupUser × W → Bool × (LookupUser × W)) where
  -- What a success leaves of the history.
  abbrev WithHistory : List ParsedUri → LookupUser × W → Type 0
  WithHistory handles (u, w) =
      (history : History) × (u.reroute_history ≡ put_all (clock w) handles history)

  abbrev Success : List ParsedUri → Option RerouteError × (LookupUser × W) → Type 0
  Success handles (none, s) = WithHistory handles s
  Success handles (some e, s) = Unit

  after_registering-Success :
      (handles : List ParsedUri) (r : Bool × (LookupUser × W))
      → Success handles (after_registering clock trigger_reroute register_ids handles r)
  after_registering-Success handles (false, s) = tt
  after_registering-Success handles (true, (u, w)) = (u.reroute_history, refl)

  after_rerouting-Success :
      (handles : List ParsedUri) (u : LookupUser) (r : Bool × W)
      → Success handles (after_rerouting clock trigger_reroute register_ids handles u r)
  after_rerouting-Success handles u (false, w) = tt
  after_rerouting-Success handles u (true, w) =
      after_registering-Success handles (register_ids (u, w))

  reroute_and_reregister-Success :
      (has_url : Bool) (tokens : Option ℕ) (handles : List ParsedUri) (u : LookupUser) (w : W)
      → Success handles
          (reroute_and_reregister clock trigger_reroute register_ids has_url tokens handles (u, w))
  unfolding reroute_and_reregister
  reroute_and_reregister-Success has_url tokens handles u w =
      if_elim (Success handles) (not has_url) (λ e. tt)
        λ e.
          if_elim (Success handles) (is_past_limit tokens) (λ f. tt)
            λ f.
              if_elim (Success handles)
                (not (is_nil handles) && not (warrants_reroute (clock w) u.reroute_history handles))
                (λ g. tt) λ g. after_rerouting-Success handles u (trigger_reroute w)

  -- A second call for the same handles, at least one, within seven days of a successful call, does
  -- nothing but to return an error.
  pub reroute_and_reregister_twice :
      (has_url has_url' : Bool) (tokens tokens' : Option ℕ) (handles : List ParsedUri)
      (u u' : LookupUser) (w w' w'' : W)
      → reroute_and_reregister clock trigger_reroute register_ids has_url tokens handles (u, w)
        ≡ (none, (u', w'))
      → is_nil handles ≡ false
      → clock w'' ≤ clock w' + 7 * day
      → (e : RerouteError) × (reroute_and_reregister clock trigger_reroute register_ids has_url'
            tokens' handles
            (u', w'')
          ≡ (some e, (u', w'')))
  unfolding reroute_and_reregister
  reroute_and_reregister_twice has_url has_url' tokens tokens' handles u u' w w' w'' r some_handle
        soon =
      let (history, h) =
        subst (Success handles) r (reroute_and_reregister-Success has_url tokens handles u w) in
      let recent =
        warrants_reroute_recent (clock w'') (clock w') u'.reroute_history handles
          (λ v c. ap (find v) h ∙ put_all-find (clock w') handles history v c) soon in
      elim (Bool-cases has_url') [
        | inr e ↦ rw e (no_reroute_url_configured, refl)
        | inl e ↦ rw e (elim (Bool-cases (is_past_limit tokens')) [
          | inl f ↦ rw f (reroute_ratelimit, refl)
          | inr f ↦ rw f (rw some_handle (rw recent (handles_rerouted_too_recently, refl)))
        ])
      ]
