-- ===== src/Ids/Lookup/Cached.antt =====
-- `Lookup` and `LookupDevice` of imessage/imessage/direct/ids/lookup.go: the cache in front of the
-- server. The clock is read once for the ages of all cached results, and the loops over maps go in
-- the order of the association lists.
pub mod Fresh
pub mod Keeps
pub mod Reach
use imessage_for_me.Base.{
  ℕ, suc, ◌-◌, Bool, true, false, not, ◌&&◌, ◌||◌, List, [], ◌∷◌, ◌++◌, Option, none, some, Bytes,
  ltb, if◌then◌else◌, length, is_nil, is_some,
}
use imessage_for_me.Base.Assoc.{find, put, delete}
use imessage_for_me.Uri.{ParsedUri}
use imessage_for_me.Uri.Order.Sorted.{uri_key, contains}
use imessage_for_me.Ids.Cache.{
  LookupIdentity, LookupResult, tuple_key, memory_get, memory_get_many, find_identity,
  min_result_refresh_interval, min_negative_result_refresh_interval, result_expiry, stamped,
}
use imessage_for_me.Ids.Lookup.{
  Results, Network, LookupError, LookupUser, Answer, answer, failure, Outcome, lookup_server,
}

-- `LookupParams`; a `Ratelimiter` that is not nil is that of the network.
pub record LookupParams : Type 0 where
  pub force : Bool
  pub limited : Bool
  pub always_use_cache : Bool

unfoldable pub is_expired : ℕ → LookupResult → Bool
is_expired now r = ltb result_expiry (now - r.time)

unfoldable pub will_relookup : LookupParams → ℕ → LookupResult → Bool
will_relookup params now r =
    params.force
    || ltb min_result_refresh_interval (now - r.time)
    || (is_nil r.identities && ltb min_negative_result_refresh_interval (now - r.time))

unfoldable pub is_looked_up : LookupParams → ℕ → LookupResult → Bool
is_looked_up params now r =
    (will_relookup params now r && not params.always_use_cache) || is_expired now r

-- The loop over the cached results: those that are kept, and the URIs to ask the server for.
unfoldable pub sort_out : LookupParams → ℕ → Results → Results × List ParsedUri
sort_out params now [] = ([], [])
sort_out params now ((u, r) ∷ cached) =
    let (kept, remaining) = sort_out params now cached in
    (
      if is_expired now r then kept else (u, r) ∷ kept,
      if is_looked_up params now r then u ∷ remaining else remaining,
    )

-- `missingFromCache`.
unfoldable pub missing : List ParsedUri → Results → List ParsedUri
missing [] cached = []
missing (u ∷ us) cached =
    let rest = missing us cached in
    if is_some (find u cached) || contains rest u then rest else u ∷ rest

-- `&LookupResult{}` for each URI that the rate limiter denies.
unfoldable pub denied : List ParsedUri → Results → Results
denied [] cached = cached
denied (u ∷ us) cached =
    denied us (put u (record { identities = []; time = 0; broadcasted = false }) cached)

abbrev pub flagged_as : Option LookupResult → LookupResult → LookupResult
flagged_as none r = r
flagged_as (some c) r = record r { broadcasted = c.broadcasted }

-- `LookupCache.Put` of one result, and `RerouteHistory.Delete` where it has identities.
unfoldable pub remember : ℕ → ParsedUri → ParsedUri → LookupResult → LookupUser → LookupUser
remember now own their r u = record u {
  lookup_cache = put (own, their) r u.lookup_cache;
  reroute_history =
      if is_nil r.identities then u.reroute_history else delete their u.reroute_history;
}

-- The loop over the results of the server.
unfoldable pub absorb : ℕ → ParsedUri → Results → Results × LookupUser → Results × LookupUser
absorb now own [] s = s
absorb now own ((their, r) ∷ rs) (cached, u) =
    let r' = stamped now (flagged_as (find their cached) r) in
    absorb now own rs (put their r' cached, remember now own their r' u)

-- What `Lookup` returns, the map and the error, with what it leaves of the user and the network.
abbrev pub Looked : Type 0 → Type 0
Looked W = (Results × Option LookupError) × (LookupUser × W)

pub data DeviceError : Type 0 where
  on_server : LookupError → DeviceError
  no_user no_token : DeviceError

abbrev pub Device : Type 0 → Type 0
Device W = (Option LookupIdentity × Option DeviceError) × (LookupUser × W)

abbrev pub found_in : Option LookupResult → Bytes → Bool → Option LookupIdentity
found_in none token ngm = none
found_in (some r) token ngm = find_identity token ngm r.identities

-- The age test of `LookupDevice` on a result that was found.
abbrev pub is_old : ℕ → Option LookupResult → Bool
is_old now none = false
is_old now (some r) = ltb min_result_refresh_interval (now - r.time)

module _ {W : Type 0} (net : Network W) where
  abbrev pub absorbed : ParsedUri → Results → Outcome W → Looked W
  absorbed own cached (failure e, s) = ((cached, some e), s)
  absorbed own cached (answer rs, (u, w)) =
      let (results, u') = absorb (net.clock w) own rs (cached, u) in ((results, none), (u', w))

  -- The part of `Lookup` behind the rate limiter.
  unfoldable pub ask_remaining : ParsedUri → Results → List ParsedUri → LookupUser × W → Looked W
  ask_remaining own kept [] s = ((kept, none), s)
  ask_remaining own kept (u ∷ us) s =
      absorbed own kept (lookup_server net (suc (length (u ∷ us))) own (u ∷ us) s)

  abbrev pub allowed : LookupParams → List ParsedUri → W → Bool × W
  allowed params new w = if params.limited then net.allow (length new) w else (true, w)

  -- `Lookup`.
  unfoldable pub lookup : ParsedUri → LookupParams → List ParsedUri → LookupUser × W → Looked W
  lookup own params uris (u, w) =
      let cached = memory_get_many u.lookup_cache own uris in
      let (kept, remaining) = sort_out params (net.clock w) cached in
      let new = missing uris cached in
      let (permitted, w') = allowed params new w in
      if permitted
      then ask_remaining own kept (remaining ++ new) (u, w')
      else ((denied new kept, none), (u, w'))

  abbrev pub token_found :
      ParsedUri
      → ParsedUri
      → Option LookupIdentity
      → LookupResult
      → Option LookupIdentity
      → LookupUser × W
      → Device W
  token_found own their old r none s = ((old, some no_token), s)
  token_found own their old r (some i) (u, w) =
      ((some i, none), (remember (net.clock w) own their (stamped (net.clock w) r) u, w))

  -- The answer of the server for the one handle.
  abbrev pub device_answer :
      ParsedUri
      → ParsedUri
      → Bytes
      → Bool
      → Option LookupResult
      → Option LookupIdentity
      → Option LookupResult
      → LookupUser × W
      → Device W
  device_answer own their token ngm cached old none s = ((old, some no_user), s)
  device_answer own their token ngm cached old (some r) s =
      token_found own their old (flagged_as cached r) (find_identity token ngm r.identities) s

  abbrev pub asked_device :
      ParsedUri
      → ParsedUri
      → Bytes
      → Bool
      → Option LookupResult
      → Option LookupIdentity
      → Outcome W
      → Device W
  asked_device own their token ngm cached old (failure e, s) = ((old, some (on_server e)), s)
  asked_device own their token ngm cached old (answer rs, s) =
      device_answer own their token ngm cached old (find their rs) s

  -- `LookupDevice`.
  unfoldable pub lookup_device : ParsedUri → ParsedUri → Bytes → Bool → LookupUser × W → Device W
  lookup_device own their token ngm (u, w) =
      let cached = memory_get u.lookup_cache own their in
      let old = found_in cached token ngm in
      if not (is_some old) || is_old (net.clock w) cached
      then asked_device own their token ngm cached old (lookup_server net 2 own (their ∷ []) (u, w))
      else ((old, none), (u, w))
