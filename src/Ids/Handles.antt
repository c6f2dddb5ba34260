-- ===== src/Ids/Handles.antt =====
-- `UpdateHandlesIfChanged` and the certificate tests of imessage/imessage/direct/ids/user.go.
pub mod Choice
use imessage_for_me.Base.{
  ℕ, Bool, true, false, not, ◌&&◌, ◌||◌, List, [], ◌∷◌, Bytes, equal, if◌then◌else◌, is_nil,
}
use imessage_for_me.Uri.{ParsedUri, tel, empty_uri, is_empty, same_uri}
use imessage_for_me.Uri.Order.{sort}
use imessage_for_me.Uri.Order.Sorted.{contains}

-- One entry of `AuthIDCertPairs`: which certificates it has, and its flag.
pub record CertPair : Type 0 where
  pub has_auth_cert : Bool
  pub has_id_cert : Bool
  pub refresh_needed : Bool

unfoldable pub has_auth_certs : Bool → List CertPair → Bool
has_auth_certs has_key [] = false
has_auth_certs has_key (p ∷ ps) =
    has_key && ((p.has_auth_cert && not p.refresh_needed) || has_auth_certs has_key ps)

unfoldable pub has_valid_id_certs : List CertPair → Bool
has_valid_id_certs [] = false
has_valid_id_certs (p ∷ ps) = (p.has_id_cert && not p.refresh_needed) || has_valid_id_certs ps

unfoldable pub needs_refresh : List CertPair → Bool
needs_refresh [] = false
needs_refresh (p ∷ ps) = (p.has_auth_cert && p.refresh_needed) || needs_refresh ps

-- The fields of the user's configuration that the handle update reads and writes.
pub record Handles : Type 0 where
  pub handles : List ParsedUri
  pub default_handle : ParsedUri
  pub preferred_handle : ParsedUri

-- `slices.Equal`.
unfoldable pub same_uris : List ParsedUri → List ParsedUri → Bool
same_uris [] [] = true
same_uris (u ∷ us) (v ∷ vs) = same_uri u v && same_uris us vs
same_uris _ _ = false

-- `u.Handles[0]`, which the source reads of a list that is not empty only.
abbrev pub first : List ParsedUri → ParsedUri
first [] = empty_uri
first (u ∷ us) = u

-- "If default handle is not set or is not available anymore, reset to first (best) handle."
unfoldable pub reset_default : Handles × Bool → Handles × Bool
reset_default (h, changed) =
    if (is_empty h.default_handle || not (contains h.handles h.default_handle))
      && not (is_nil h.handles)
    then (record h { default_handle = first h.handles }, true)
    else (h, changed)

-- "If a preferred handle isn't set and there's a phone number handle, set the phone number handle
-- as preferred."
unfoldable pub adopt_preferred : Handles × Bool → Handles × Bool
adopt_preferred (h, changed) =
    if is_empty h.preferred_handle && not (is_nil h.handles) && equal (first h.handles).scheme tel
    then (if equal h.default_handle.scheme tel
        then (record h { preferred_handle = h.default_handle }, changed)
        else (record h { preferred_handle = first h.handles }, changed))
    else (h, changed)

-- "If a preferred handle is set, is available, and is not already set as the default, change it to
-- be the default."
unfoldable pub apply_preferred : Handles × Bool → Handles × Bool
apply_preferred (h, changed) =
    if not (is_empty h.preferred_handle)
      && not (same_uri h.default_handle h.preferred_handle)
      && contains h.handles h.preferred_handle
    then (record h { default_handle = h.preferred_handle }, true)
    else (h, changed)

unfoldable pub update_handles_if_changed : Handles → List ParsedUri → Handles × Bool
update_handles_if_changed h new =
    let sorted = sort new in
    apply_preferred (
      adopt_preferred
        (reset_default (record h { handles = sorted }, not (same_uris h.handles sorted))))
