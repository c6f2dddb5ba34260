-- ===== src/Tests/Sending.antt =====
-- Destinations, sending, and the times of the registration.
use imessage_for_me.Base.{
  ℕ, ◌+◌, ◌*◌, ◌≤◌, ◌≢◌, refl, Bool, true, false, List, [], ◌∷◌, Option, none, some, Bytes, suc,
}
use imessage_for_me.Uri.{ParsedUri, empty_uri}
use imessage_for_me.Ids.Handles.{Handles}
use imessage_for_me.Ids.Cache.{LookupIdentity, hour}
use imessage_for_me.Ids.Lookup.{Results, LookupUser, Network, unregistered}
use imessage_for_me.Ids.Lookup.Cached.{lookup}
use imessage_for_me.Connector.Destinations.{panics, construct_dtl}
use imessage_for_me.Connector.Send.{
  Delivery, server_error, out_of_fuel, Flags, send_encrypted_message, deliveries_left,
}
use imessage_for_me.Connector.Send.Attempts.{send_encrypted_message-ends}
use imessage_for_me.Connector.Send.Safe.{construct_dtl-lookup}
use imessage_for_me.Connector.Schedule.{minute, AuthIdCertPair}
use imessage_for_me.Tests.Lookups.{
  own, friend, device, serve, server, user, plain, served, served_fine,
}

abbrev account : Handles
account = record { handles = own ∷ []; default_handle = own; preferred_handle = empty_uri }

-- A payload is the token of its device, and this device has the token 9.
abbrev token_of : ParsedUri → LookupIdentity → Option Bytes
token_of u i = some i.push_token

-- One participant with a device, and the own handle with none.
abbrev both_known : Results
both_known =
    (friend, record { identities = device ∷ []; time = 1; broadcasted = false })
    ∷ (own, record { identities = []; time = 1; broadcasted = false })
    ∷ []

construct_dtl-lookup_example :
    construct_dtl user.handles
      (9 ∷ [])
      token_of
      (λ u r. false)
      (lookup server own plain (friend ∷ []) (user, [])).0.0
      (friend ∷ [])
    ≢ panics
construct_dtl-lookup_example =
    construct_dtl-lookup server own plain (friend ∷ []) user [] (9 ∷ []) token_of (λ u r. false)
      (λ cert from us x results e. served us results e) refl served_fine

-- The server over a count of deliveries, each of which it refuses.
abbrev counting : Network ℕ
counting = record {
  clock = λ w. 600000000;
  exchange = λ cert from us w. (serve us, w);
  register = λ w. (unregistered 6005, w);
  allow = λ n w. (true, w);
}

abbrev refusing : List Bytes → LookupUser × ℕ → Delivery × (LookupUser × ℕ)
refusing ps (u, w) = (server_error 5001, (u, suc w))

abbrev rerouted : List ParsedUri → LookupUser × ℕ → Bool × (LookupUser × ℕ)
rerouted us s = (true, s)

abbrev both : Flags
both = record { is_retriable = true; reroutes = true }

send_encrypted_message-ends_example :
    ((send_encrypted_message counting rerouted refusing
        (9 ∷ [])
        token_of
        3
        own
        (friend ∷ [])
        both
        (friend ∷ [])
        (user, 0)).0
      ≢ out_of_fuel)
    × ((send_encrypted_message counting rerouted refusing
          (9 ∷ [])
          token_of
          3
          own
          (friend ∷ [])
          both
          (friend ∷ [])
          (user, 0)).1.1
        ≤ 0 + deliveries_left both)
send_encrypted_message-ends_example =
    send_encrypted_message-ends counting rerouted refusing (9 ∷ []) token_of (λ w. w)
      (λ cert from us x. refl) (λ x. refl) (λ us u x. refl) (λ ps u x. refl) own (friend ∷ []) both
      (friend ∷ []) user 0

-- One certificate that ends in ten hours, one in ten minutes, and none.
abbrev certs : List AuthIdCertPair
certs =
    record { id_cert_not_after = some (1000000 + 10 * hour); refresh_needed = false }
    ∷ record { id_cert_not_after = some (1000000 + 10 * minute); refresh_needed = true }
    ∷ record { id_cert_not_after = none; refresh_needed = false }
    ∷ []

abbrev started : ℕ
started = 1000000

abbrev lasting : List AuthIdCertPair
lasting = record { id_cert_not_after = some (1000000 + 10 * hour); refresh_needed = false } ∷ []
