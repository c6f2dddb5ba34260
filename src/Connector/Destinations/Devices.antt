-- ===== src/Connector/Destinations/Devices.antt =====
-- The handle that a message is sent from, and that `constructDTL` reads no missing result.
use imessage_for_me.Base.{
  ◌≡◌, ◌≢◌, refl, Bool, true, false, List, [], ◌∷◌, ◌++◌, Option, none, some, Bytes, if◌then◌else◌,
  arith, if_elim, Bool-cases, inl, inr, is_some,
}
use imessage_for_me.Base.Assoc.{find, same_refl}
use imessage_for_me.Uri.{ParsedUri}
use imessage_for_me.Uri.Order.Sorted.{uri_key, contains}
use imessage_for_me.Ids.Handles.{Handles}
use imessage_for_me.Ids.Cache.{LookupIdentity, LookupResult}
use imessage_for_me.Ids.Lookup.{Results}
use imessage_for_me.Ids.Lookup.Coverage.{Covers}
use imessage_for_me.Connector.Destinations.{
  fix_send_from_handle, Constructed, constructed, no_payload, panics, add_skipped, add_found,
  add_participant, construct_dtl,
}

contains-end : (u : ParsedUri) (us : List ParsedUri) → contains (us ++ u ∷ []) u ≡ true
unfolding contains
contains-end u [] = rw (same_refl uri_key u) refl
contains-end u (v ∷ us) = ground (arith, contains-end u us)

with_own_lem :
    (v : ParsedUri) (ps : List ParsedUri)
    → contains (if contains ps v then ps else ps ++ v ∷ []) v ≡ true
with_own_lem v ps = elim (Bool-cases (contains ps v)) [
  | inl e ↦ rw (e, e) refl
  | inr e ↦ rw e (contains-end v ps)
]

-- The handle that a message is sent from is one of the participants, and one of the handles of the
-- account where the default handle is.
pub fix_send_from_handle_lem :
    (h : Handles) (handle : ParsedUri) (participants : List ParsedUri)
    → contains h.handles h.default_handle ≡ true
    → (contains
          (fix_send_from_handle h handle participants).1
          (fix_send_from_handle h handle participants).0
        ≡ true)
      × (contains h.handles (fix_send_from_handle h handle participants).0 ≡ true)
unfolding fix_send_from_handle
fix_send_from_handle_lem h handle participants d = (with_own_lem _ participants, ground (arith, d))

-- Whether `constructDTL` ran into a URI without a result.
abbrev has_panicked : {P : Type 0} → Constructed P → Bool
has_panicked panics = true
has_panicked c = false

module _ {P : Type 0} (handles : List ParsedUri) (push_token : Bytes)
    (payload : ParsedUri → LookupIdentity → Option P)
    (omit : ParsedUri → Option LookupResult → Bool) where
  skipped-safe :
      (u : ParsedUri) (c : Constructed P)
      → has_panicked c ≡ false
      → has_panicked (add_skipped u c) ≡ false
  skipped-safe u (constructed d) h = refl
  skipped-safe u no_payload h = refl
  skipped-safe u panics h = h

  found-safe :
      (b : Bool) (u : ParsedUri) (o : Option (List P)) (c : Constructed P)
      → has_panicked c ≡ false
      → has_panicked (add_found b u o c) ≡ false
  found-safe b u none c h = refl
  found-safe b u (some ps) (constructed d) h = refl
  found-safe b u (some ps) no_payload h = refl
  found-safe b u (some ps) panics h = h

  participant-safe :
      (u : ParsedUri) (o : Option LookupResult) (c : Constructed P)
      → is_some o ≡ true
      → has_panicked c ≡ false
      → has_panicked (add_participant handles push_token payload omit u o c) ≡ false
  participant-safe u none c s h = absurd (ground (arith, s))
  participant-safe u (some r) c s h =
      if_elim (λ d. has_panicked d ≡ false) (omit u (some r)) (λ e. skipped-safe u c h)
        (λ e. found-safe _ u _ c h)

  loop-safe :
      (results : Results) (us : List ParsedUri)
      → Covers us results
      → has_panicked (construct_dtl handles push_token payload omit results us) ≡ false
  unfolding construct_dtl
  loop-safe results [] c = refl
  loop-safe results (u ∷ us) c =
      participant-safe u (find u results) _ c.0 (loop-safe results us c.1)

  -- Where the lookup has a result for each participant, building the payloads does not panic.
  pub construct_dtl-safe :
      (results : Results) (us : List ParsedUri)
      → Covers us results
      → construct_dtl handles push_token payload omit results us ≢ panics
  construct_dtl-safe results us c e = ground (arith, loop-safe results us c, e)
