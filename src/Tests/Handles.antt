-- ===== src/Tests/Handles.antt =====
-- Handles and identifiers.
use imessage_for_me.Base.{◌≡◌, ◌≢◌, ◌⊎◌, refl, true, false, [], ◌∷◌, none, codes, equal, is_nil}
use imessage_for_me.Uri.{
  ParsedUri, tel, mailto, ok, cut, is_email, parse_uri, validate_uri, to_string, is_empty, same_uri,
  is_empty, empty_uri,
}
use imessage_for_me.Uri.RoundTrip.{no_colon, to_string-parse_uri}
use imessage_for_me.Uri.Identifier.{
  Locale, email, allow, parse_identifier_in, bare_identifier, is_uuid,
}
use imessage_for_me.Uri.Options.{Permits, parse_identifier_in-Permits}
use imessage_for_me.Uri.Order.{sort, compact, insertion_sort, insert, compact_from}
use imessage_for_me.Uri.Order.Sorted.{contains, InOrder}
use imessage_for_me.Ids.Handles.{
  Handles, update_handles_if_changed, reset_default, adopt_preferred, apply_preferred,
}
use imessage_for_me.Ids.Handles.Choice.{update_handles_lem}

abbrev phone : ParsedUri
phone = record { scheme = tel; identifier = codes "+15550001111" }

abbrev address : ParsedUri
address = record { scheme = mailto; identifier = codes "a@b.c" }

abbrev nothing_chosen : Handles
nothing_chosen = record {
  handles = address ∷ [];
  default_handle = address;
  preferred_handle = empty_uri;
}

update_handles_lem_example :
    (contains (update_handles_if_changed nothing_chosen (address ∷ phone ∷ [])).0.handles phone
      ≡ contains (address ∷ phone ∷ []) phone)
    × InOrder (update_handles_if_changed nothing_chosen (address ∷ phone ∷ [])).0.handles
    × ((is_nil {A = ParsedUri} (address ∷ phone ∷ []) ≡ true)
        ⊎ (contains
              (update_handles_if_changed nothing_chosen (address ∷ phone ∷ [])).0.handles
              (update_handles_if_changed nothing_chosen (address ∷ phone ∷ [])).0.default_handle
            ≡ true))
update_handles_lem_example = update_handles_lem nothing_chosen (address ∷ phone ∷ []) phone

phone-listed : contains (address ∷ phone ∷ []) phone ≡ true
unfolding contains same_uri equal
phone-listed = refl

nothing_preferred : is_empty nothing_chosen.preferred_handle ≡ true
unfolding is_empty
nothing_preferred = refl

abbrev address_chosen : Handles
address_chosen = record {
  handles = address ∷ [];
  default_handle = phone;
  preferred_handle = address;
}

preferred_set :
    is_empty (update_handles_if_changed address_chosen (address ∷ [])).0.preferred_handle ≡ false
unfolding update_handles_if_changed reset_default adopt_preferred apply_preferred is_empty same_uri
    equal sort contains compact insertion_sort insert compact_from
preferred_set = refl

preferred_listed :
    contains
      (update_handles_if_changed address_chosen (address ∷ [])).0.handles
      (update_handles_if_changed address_chosen (address ∷ [])).0.preferred_handle
    ≡ true
unfolding update_handles_if_changed reset_default adopt_preferred apply_preferred is_empty same_uri
    equal sort contains compact insertion_sort insert compact_from
preferred_listed = refl

address-parsed : parse_uri (codes "mailto:a@b.c") ≡ ok address
unfolding parse_uri validate_uri cut is_email equal
address-parsed = refl

to_string-parse_uri_example :
    (to_string address ≡ codes "mailto:a@b.c")
    × (no_colon mailto ≡ true)
    × (address.identifier ≢ [])
to_string-parse_uri_example = to_string-parse_uri (codes "mailto:a@b.c") address address-parsed

address-valid : validate_uri address.scheme address.identifier ≡ ok address
unfolding validate_uri is_email cut equal
address-valid = refl

-- A locale without national numbers, in which all text is in lower case.
abbrev plain : Locale
plain = record { to_lower = λ s. s; national_e164 = λ s region. none }

bare_address : parse_identifier_in plain (codes "a@b.c") email [] ≡ ok address
unfolding parse_identifier_in bare_identifier parse_uri cut allow is_uuid
bare_address = refl

parse_identifier_in-Permits_example : Permits (λ n. none) email address
parse_identifier_in-Permits_example =
    parse_identifier_in-Permits plain (codes "a@b.c") email [] address bare_address
