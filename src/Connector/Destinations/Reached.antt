-- ===== src/Connector/Destinations/Reached.antt =====
-- Which devices `constructDTL` reaches, and how it sorts the participants.
use imessage_for_me.Base.{
  ◌+◌, ◌≡◌, ◌⊎◌, equal, is_nil, Bool, true, false, List, [], ◌∷◌, Option, none, some, Bytes, length,
  All,
}
use imessage_for_me.Base.Assoc.{find}
use imessage_for_me.Uri.{ParsedUri}
use imessage_for_me.Uri.Order.Sorted.{uri_key, contains}
use imessage_for_me.Ids.Cache.{LookupIdentity, LookupResult}
use imessage_for_me.Ids.Lookup.{Results}
use imessage_for_me.Connector.Destinations.{Destined, Constructed, constructed}

-- A payload among the payloads.
abbrev pub In : {P : Type 0} → P → List P → Type 0
In p [] = ⊥
In p (q ∷ qs) = (p ≡ q) ⊎ In p qs

module _ {P : Type 0} (handles : List ParsedUri) (push_token : Bytes)
    (payload : ParsedUri → LookupIdentity → Option P)
    (omit : ParsedUri → Option LookupResult → Bool) (results : Results) where
  -- A payload is for a device of a participant that has keys and another token than this one.
  pub record IsFor (u : ParsedUri) (p : P) : Type 0 where
    pub result : LookupResult
    pub device : LookupIdentity
    pub is_result : find u results ≡ some result
    pub is_device : In device result.identities
    pub is_other : equal device.push_token push_token ≡ false
    pub has_keys : device.has_identity_key ≡ true
    pub is_payload : payload u device ≡ some p
    pub is_unomitted : omit u (some result) ≡ false

  -- A device has its payload among those, unless it is this one or has no keys.
  abbrev pub Served : List P → ParsedUri → LookupIdentity → Type 0
  Served dtl u i =
      (equal i.push_token push_token ≡ true)
      ⊎ ((i.has_identity_key ≡ false) ⊎ ((p : P) × (payload u i ≡ some p) × In p dtl))

  -- A participant stands with its kind in one of the lists.
  pub record IsFound (u : ParsedUri) : Type 0 where
    pub result : LookupResult
    pub is_result : find u results ≡ some result
    pub is_unomitted : omit u (some result) ≡ false
    pub has_devices : (is_nil result.identities ≡ false) ⊎ (contains handles u ≡ true)

  pub record IsNotFound (u : ParsedUri) : Type 0 where
    pub result : LookupResult
    pub is_result : find u results ≡ some result
    pub is_unomitted : omit u (some result) ≡ false
    pub no_devices : is_nil result.identities ≡ true
    pub is_other : contains handles u ≡ false

  abbrev pub IsSkipped : ParsedUri → Type 0
  IsSkipped u = omit u (find u results) ≡ true

  -- All that a participant has is served, unless it is skipped.
  abbrev pub IsServed : List P → ParsedUri → Option LookupResult → Type 0
  IsServed dtl u none = Unit
  IsServed dtl u (some r) = (omit u (some r) ≡ true) ⊎ All (Served dtl u) r.identities

  pub record IsSound (us : List ParsedUri) (d : Destined P) : Type 0 where
    pub payloads : All (λ p. (u : ParsedUri) × IsFor u p) d.dtl
    pub served : All (λ u. IsServed d.dtl u (find u results)) us
    pub found : All IsFound d.found
    pub not_found : All IsNotFound d.not_found
    pub skipped : All IsSkipped d.skipped
    pub number : length d.found + length d.not_found + length d.skipped ≡ length us

  abbrev pub Sound : List ParsedUri → Constructed P → Type 0
  Sound us (constructed d) = IsSound us d
  Sound us c = Unit

  module _ (u : ParsedUri) (r : LookupResult) (e : find u results ≡ some r)
      (k : omit u (some r) ≡ false) where
    -- The payloads for devices of one participant, if each could be built.
    abbrev Made : List LookupIdentity → Option (List P) → Type 0
    Made is none = Unit
    Made is (some ps) = All (IsFor u) ps × All (Served ps u) is
