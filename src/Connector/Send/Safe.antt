-- ===== src/Connector/Send/Safe.antt =====
-- `constructDTL` behind the lookup that it starts with.
use imessage_for_me.Base.{◌≡◌, ◌≢◌, Bool, false, List, Option, none, Bytes}
use imessage_for_me.Uri.{ParsedUri}
use imessage_for_me.Ids.Cache.{LookupIdentity, LookupResult}
use imessage_for_me.Ids.Lookup.{Results, Network, LookupUser, answer, reply_answer}
use imessage_for_me.Ids.Lookup.Coverage.{Covers}
use imessage_for_me.Ids.Lookup.Cached.{LookupParams, lookup}
use imessage_for_me.Ids.Lookup.Cached.Reach.{lookup-Covers}
use imessage_for_me.Connector.Destinations.{construct_dtl, panics}
use imessage_for_me.Connector.Destinations.Devices.{construct_dtl-safe}

-- Where each exchange with the server that succeeds has a result for each URI it asks for, building
-- the payloads from a lookup with no limiter that reports no error never reads a missing result,
-- whether the results come from the cache or from the server.
pub construct_dtl-lookup :
    {W : Type 0} {P : Type 0} (net : Network W) (own : ParsedUri) (params : LookupParams)
    (uris : List ParsedUri) (u : LookupUser) (w : W) (push_token : Bytes)
    (payload : ParsedUri → LookupIdentity → Option P)
    (omit : ParsedUri → Option LookupResult → Bool)
    → ((cert : Bytes) (own' : ParsedUri) (us : List ParsedUri) (x : W) (results : Results)
        → reply_answer (net.clock (net.exchange cert own' us x).1) (net.exchange cert own' us x).0
          ≡ answer results
        → Covers us results)
    → params.limited ≡ false
    → (lookup net own params uris (u, w)).0.1 ≡ none
    → construct_dtl u.handles push_token payload omit (lookup net own params uris (u, w)).0.0 uris
      ≢ panics
construct_dtl-lookup net own params uris u w push_token payload omit answers free fine =
    construct_dtl-safe u.handles push_token payload omit (lookup net own params uris (u, w)).0.0
      uris (lookup-Covers net own params uris u w answers free fine)
