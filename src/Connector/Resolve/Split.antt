-- ===== src/Connector/Resolve/Split.antt =====
-- Where `ResolveIdentifiers` puts what it was asked for.
use imessage_for_me.Base.{
  ◌≡◌, Bool, true, false, List, Option, none, some, Bytes, is_nil, All, if◌then◌else◌,
}
use imessage_for_me.Uri.{ParsedUri, is_shortcode}
use imessage_for_me.Uri.Identifier.{Locale}
use imessage_for_me.Uri.Order.Sorted.{uri_key, contains, InOrder}
use imessage_for_me.Ids.Cache.{LookupResult}
use imessage_for_me.Ids.Lookup.{Results, Network, LookupUser}
use imessage_for_me.Ids.Lookup.Cached.{lookup}
use imessage_for_me.Connector.Resolve.{
  parse_identifiers, result_of, Resolution, resolved, or_default_handle, resolve_identifiers,
}

-- No URI of a list is a shortcode.
abbrev pub Unshort : List ParsedUri → Type 0
Unshort us = All (λ u. is_shortcode u ≡ false) us

abbrev pub UnshortKeys : Results → Type 0
UnshortKeys rs = All (λ (k, r). is_shortcode k ≡ false) rs

abbrev UnshortAnswer : Option (ParsedUri × LookupResult) → Type 0
UnshortAnswer none = Unit
UnshortAnswer (some (k, r)) = is_shortcode k ≡ false

abbrev UnshortOutput : Option (List ParsedUri × List ParsedUri) → Type 0
UnshortOutput none = Unit
UnshortOutput (some (output, short)) = Unshort output

-- Where an identifier is to be found: under the name of its result, by whether it has identities.
abbrev PlacedAs :
    List ParsedUri → List ParsedUri → ParsedUri → Option (ParsedUri × LookupResult) → Type 0
PlacedAs found not_found u none = contains not_found u ≡ true
PlacedAs found not_found u (some (k, r)) =
    contains (if is_nil r.identities then not_found else found) k ≡ true

-- Each identifier that is asked for is in one of both lists.
abbrev pub Placed :
    (Bytes → Bytes → Bool) → Results → List ParsedUri → List ParsedUri → List ParsedUri → Type 0
Placed fold results found not_found us =
    All (λ u. PlacedAs found not_found u (result_of fold results u)) us

-- Both lists are in order, and each identifier that was asked for is in one of them.
pub record IsSplit (fold : Bytes → Bytes → Bool) (results : Results) (output : List ParsedUri)
    (r : Resolution) (found not_found : List ParsedUri) : Type 0 where
  pub is_resolved : r ≡ resolved found not_found
  pub placed : Placed fold results found not_found output
  pub found_in_order : InOrder found
  pub not_found_in_order : InOrder not_found

module _ {W : Type 0} (net : Network W) (env : Locale) (fold : Bytes → Bytes → Bool)
    (own : ParsedUri) (limited force : Bool) (handle : Option ParsedUri) (identifiers : List Bytes)
    (s : LookupUser × W) (output short : List ParsedUri) (results : Results)
    (parsed : parse_identifiers env identifiers ≡ some (output, short))
    (answered : (lookup net
        (or_default_handle handle own)
        (record { force = force; limited = limited; always_use_cache = false })
        output
        s).0
      ≡ (results, none)) where
  abbrev resolution : Resolution
  resolution = (resolve_identifiers net env fold own limited force handle identifiers s).0
