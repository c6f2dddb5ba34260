-- ===== src/Connector/Destinations.antt =====
-- `fixSendFromHandle` and `constructDTL` of imessage/imessage/direct/connector.go: from which handle
-- and to which devices a message goes. The encryption for a device is an argument that returns the
-- payload or fails.
pub mod Devices
pub mod Reached
use imessage_for_me.Base.{
  ℕ, Bool, true, false, not, ◌&&◌, ◌||◌, List, [], ◌∷◌, ◌++◌, Option, none, some, Bytes, equal,
  if◌then◌else◌, is_nil,
}
use imessage_for_me.Base.Assoc.{find}
use imessage_for_me.Uri.{ParsedUri, is_empty}
use imessage_for_me.Uri.Order.Sorted.{uri_key, contains}
use imessage_for_me.Ids.Handles.{Handles}
use imessage_for_me.Ids.Cache.{LookupIdentity, LookupResult}
use imessage_for_me.Ids.Lookup.{Results}

abbrev with_own : ParsedUri → List ParsedUri → ParsedUri × List ParsedUri
with_own handle participants =
    (handle, if contains participants handle then participants else participants ++ handle ∷ [])

-- `fixSendFromHandle`.
unfoldable pub fix_send_from_handle :
    Handles → ParsedUri → List ParsedUri → ParsedUri × List ParsedUri
fix_send_from_handle h handle participants =
    with_own
      (if is_empty handle
        then h.default_handle
        else if not (contains h.handles handle)
        then h.default_handle
        else handle)
      participants

-- The lists that the loop of `constructDTL` fills.
pub record Destined (P : Type 0) : Type 0 where
  pub dtl : List P
  pub found : List ParsedUri
  pub not_found : List ParsedUri
  pub skipped : List ParsedUri

-- How `constructDTL` ends: `panics` where it reads the result of a URI that has none.
pub data Constructed (P : Type 0) : Type 0 where
  constructed : Destined P → Constructed P
  no_payload panics : Constructed P

-- The devices that are left out: this one, and one without keys.
unfoldable pub is_left_out : Bytes → LookupIdentity → Bool
is_left_out push_token i = equal i.push_token push_token || not i.has_identity_key

module _ {P : Type 0} where
  abbrev pub and_payload : Option P → Option (List P) → Option (List P)
  and_payload none rest = none
  and_payload (some p) none = none
  and_payload (some p) (some ps) = some (p ∷ ps)

  -- The inner loop, over the devices of one participant.
  unfoldable pub device_payloads :
      Bytes → (LookupIdentity → Option P) → List LookupIdentity → Option (List P)
  device_payloads push_token payload [] = some []
  device_payloads push_token payload (i ∷ is) =
      let rest = device_payloads push_token payload is in
      if is_left_out push_token i then rest else and_payload (payload i) rest

  abbrev pub add_skipped : ParsedUri → Constructed P → Constructed P
  add_skipped u (constructed d) = constructed (record d { skipped = u ∷ d.skipped })
  add_skipped u no_payload = no_payload
  add_skipped u panics = panics

  abbrev pub add_found : Bool → ParsedUri → Option (List P) → Constructed P → Constructed P
  add_found missing u none rest = no_payload
  add_found missing u (some ps) (constructed d) = constructed (record d {
    dtl = ps ++ d.dtl;
    found = if missing then d.found else u ∷ d.found;
    not_found = if missing then u ∷ d.not_found else d.not_found;
  })
  add_found missing u (some ps) no_payload = no_payload
  add_found missing u (some ps) panics = panics

  module _ (handles : List ParsedUri) (push_token : Bytes)
      (payload : ParsedUri → LookupIdentity → Option P)
      (omit : ParsedUri → Option LookupResult → Bool) where
    abbrev pub add_participant : ParsedUri → Option LookupResult → Constructed P → Constructed P
    add_participant u none rest = if omit u none then add_skipped u rest else panics
    add_participant u (some r) rest =
        if omit u (some r)
        then add_skipped u rest
        else add_found (is_nil r.identities && not (contains handles u)) u
            (device_payloads push_token (payload u) r.identities) rest

    -- `constructDTL` behind its lookup.
    unfoldable pub construct_dtl : Results → List ParsedUri → Constructed P
    construct_dtl results [] =
        constructed (record { dtl = []; found = []; not_found = []; skipped = [] })
    construct_dtl results (u ∷ us) = add_participant u (find u results) (construct_dtl results us)
