-- ===== src/Connector/Resolve.antt =====
-- `ResolveIdentifiers` of imessage/imessage/direct/connector.go: which identifiers have iMessage, by a
-- lookup. `strings.EqualFold` is an argument, and where the source ranges over the map of the results
-- for a name in other case, the results come in the order of the list.
pub mod Split
use imessage_for_me.Base.{
  ℕ, ◌+◌, Bool, false, ◌&&◌, List, [], ◌∷◌, Option, none, some, Bytes, equal, if◌then◌else◌, is_nil,
}
use imessage_for_me.Base.Assoc.{find}
use imessage_for_me.Uri.{ParsedUri, Result, ok, err, is_shortcode}
use imessage_for_me.Uri.Identifier.{Locale, intl_number, email, shortcodes, parse_identifier}
use imessage_for_me.Uri.Order.{sort}
use imessage_for_me.Uri.Order.Sorted.{uri_key}
use imessage_for_me.Ids.Cache.{LookupResult}
use imessage_for_me.Ids.Lookup.{Results, Network, LookupError, LookupUser}
use imessage_for_me.Ids.Lookup.Cached.{LookupParams, Looked, lookup}

-- `ParseiMessageDM|POShortcodes`.
abbrev pub parsing : ℕ
parsing = intl_number + email + shortcodes

-- What is asked for, and the shortcodes.
abbrev pub kept_apart :
    Result → Option (List ParsedUri × List ParsedUri) → Option (List ParsedUri × List ParsedUri)
kept_apart (ok u) (some (output, short)) =
    if is_shortcode u then some (output, u ∷ short) else some (u ∷ output, short)
kept_apart r o = none

-- The first loop; nothing where an identifier cannot be parsed.
unfoldable pub parse_identifiers : Locale → List Bytes → Option (List ParsedUri × List ParsedUri)
parse_identifiers env [] = some ([], [])
parse_identifiers env (s ∷ ss) =
    kept_apart (parse_identifier env s parsing) (parse_identifiers env ss)

-- The inner loop: a result whose name differs in case only.
unfoldable pub in_other_case :
    (Bytes → Bytes → Bool) → ParsedUri → Results → Option (ParsedUri × LookupResult)
in_other_case fold u [] = none
in_other_case fold u ((key, r) ∷ rs) =
    if equal key.scheme u.scheme && fold key.identifier u.identifier
    then some (key, r)
    else in_other_case fold u rs

abbrev or_in_other_case :
    ParsedUri
    → Option LookupResult
    → Option (ParsedUri × LookupResult)
    → Option (ParsedUri × LookupResult)
or_in_other_case u (some r) o = some (u, r)
or_in_other_case u none o = o

-- The result for an identifier, with the name that it is reported under.
unfoldable pub result_of :
    (Bytes → Bytes → Bool) → Results → ParsedUri → Option (ParsedUri × LookupResult)
result_of fold results u = or_in_other_case u (find u results) (in_other_case fold u results)

abbrev pub sorted_into :
    ParsedUri
    → Option (ParsedUri × LookupResult)
    → List ParsedUri × List ParsedUri
    → List ParsedUri × List ParsedUri
sorted_into u none (found, not_found) = (found, u ∷ not_found)
sorted_into u (some (key, r)) (found, not_found) =
    if is_nil r.identities then (found, key ∷ not_found) else (key ∷ found, not_found)

-- The second loop: the identifiers found and not found.
unfoldable pub split_found :
    (Bytes → Bytes → Bool) → Results → List ParsedUri → List ParsedUri × List ParsedUri
split_found fold results [] = ([], [])
split_found fold results (u ∷ us) =
    sorted_into u (result_of fold results u) (split_found fold results us)

-- The results: an error of the parser, or of the lookup with what was asked for, or both lists.
pub data Resolution : Type 0 where
  not_parsed : Resolution
  not_looked_up : List ParsedUri → LookupError → Resolution
  resolved : List ParsedUri → List ParsedUri → Resolution

abbrev pub or_default_handle : Option ParsedUri → ParsedUri → ParsedUri
or_default_handle none u = u
or_default_handle (some handle) u = handle

module _ {W : Type 0} (net : Network W) (env : Locale) (fold : Bytes → Bytes → Bool) where
  abbrev pub judge_resolved : List ParsedUri → Looked W → Resolution × (LookupUser × W)
  judge_resolved output ((results, some e), s) = (not_looked_up output e, s)
  judge_resolved output ((results, none), s) =
      let (found, not_found) = split_found fold results output in
      (resolved (sort found) (sort not_found), s)

  abbrev pub looked_up :
      ParsedUri
      → LookupParams
      → Option (List ParsedUri × List ParsedUri)
      → LookupUser × W
      → Resolution × (LookupUser × W)
  looked_up own params none s = (not_parsed, s)
  looked_up own params (some (output, short)) s =
      judge_resolved output (lookup net own params output s)

  -- `ResolveIdentifiers`, with the default handle of the user and whether there is a limiter.
  unfoldable pub resolve_identifiers :
      ParsedUri
      → Bool
      → Bool
      → Option ParsedUri
      → List Bytes
      → LookupUser × W
      → Resolution × (LookupUser × W)
  resolve_identifiers default_handle limited force handle identifiers s =
      looked_up (or_default_handle handle default_handle)
        (record { force = force; limited = limited; always_use_cache = false })
        (parse_identifiers env identifiers) s
