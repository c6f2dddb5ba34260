-- ===== src/Tests/Lookups.antt =====
-- The caches of lookup results, and lookups at a server.
use imessage_for_me.Base.{
  ℕ, ◌≤◌, ◌≡◌, ◌≢◌, refl, sym, ap, equal, Bool, true, false, List, [], ◌∷◌, Option, none, some,
  codes, if◌then◌else◌, length, All, arith, Bool-cases, inl, inr,
}
use mathlib.Core.Path.{subst}
use imessage_for_me.Base.Assoc.{find, put}
use imessage_for_me.Uri.{ParsedUri, mailto, same_uri, parse_uri, validate_uri, cut, is_email}
use imessage_for_me.Uri.Order.Sorted.{uri_key, same_uri_iff, contains}
use imessage_for_me.Ids.Cache.{
  LookupIdentity, LookupResult, CacheCall, puts, invalidates, marks_broadcasted, memory_get,
  memory_get_many, memory_run, table_get, same_tuple, table_run, Json, sqlite,
}
use imessage_for_me.Ids.Cache.Agreement.{erased, truncated, after_all, caches_implement}
use imessage_for_me.Ids.Lookup.{
  Results, Network, Reply, not_sent, replied, unregistered, LookupError, LookupUser, Answer, answer,
  failure, out_of_fuel, reply_answer, parsed_results, lookup_server, actually_lookup_server,
  attempt, auth_id_cert_pair,
}
use imessage_for_me.Ids.Lookup.Coverage.{Covers, lookup_server-Inv}
use imessage_for_me.Ids.Lookup.Cached.{LookupParams, lookup, ask_remaining, sort_out, missing}
use imessage_for_me.Ids.Lookup.Cached.Fresh.{Answers}

abbrev pub own : ParsedUri
own = record { scheme = mailto; identifier = codes "me@a.b" }

abbrev pub friend : ParsedUri
friend = record { scheme = mailto; identifier = codes "a@b.c" }

abbrev pub device : LookupIdentity
device = record {
  push_token = 7 ∷ [];
  session_token = [];
  has_identity_key = true;
  has_prekey = true;
  has_ngm_identity = true;
  has_kt_data = false;
}

abbrev result : LookupResult
result = record { identities = device ∷ []; time = 0; broadcasted = false }

abbrev cache_calls : List (ℕ × CacheCall)
cache_calls =
    (500000000, puts own friend result)
    ∷ (600000000, invalidates own friend)
    ∷ (600000001, marks_broadcasted own (friend ∷ []))
    ∷ []

-- The JSON of the one result.
abbrev json : Json
json = record { encode = λ r. codes "result"; decode = λ s. some (device ∷ []) }

nothing_remembered :
    erased (table_get json [] own friend) ≡ truncated (erased (memory_get [] own friend))
unfolding erased table_get memory_get find
nothing_remembered = refl

caches_implement_example :
    (erased (memory_get (memory_run [] cache_calls) own friend)
      ≡ after_all (own, friend) cache_calls (erased (memory_get [] own friend)))
    × (erased (table_get json (table_run json sqlite [] cache_calls) own friend)
        ≡ truncated (after_all (own, friend) cache_calls (erased (memory_get [] own friend))))
caches_implement_example =
    caches_implement json own friend cache_calls [] [] (refl, (tt, (tt, tt))) nothing_remembered

-- A server that notes what it is asked for, knows one user and answers for that user alone.
abbrev pub serve : List ParsedUri → Reply
serve [] = not_sent
serve (u ∷ []) =
    if same_uri u friend
    then replied 0 (some (record { results = (codes "mailto:a@b.c", result) ∷ []; status = 0 }))
    else not_sent
serve (u ∷ v ∷ us) = not_sent

abbrev pub server : Network (List (List ParsedUri))
server = record {
  clock = λ w. 600000000;
  exchange = λ cert from us w. (serve us, us ∷ w);
  register = λ w. (unregistered 6005, w);
  allow = λ n w. (true, w);
}

abbrev pub user : LookupUser
user = record {
  handles = own ∷ [];
  auth_id_cert_pairs = (codes "D:1", codes "cert") ∷ [];
  profile_id = codes "D:1";
  lookup_error_count = 0;
  last_lookup_reregister = 0;
  lookup_cache = [];
  reroute_history = [];
}

abbrev many : List ParsedUri
many =
    friend ∷ own ∷ friend ∷ own ∷ friend ∷ own ∷ friend ∷ own ∷ friend ∷ own ∷ friend ∷ own ∷ friend
    ∷ own ∷ friend ∷ own ∷ friend ∷ own ∷ friend ∷ own ∷ friend ∷ own ∷ []

lookup_server-Inv_example :
    All (λ us. length us ≤ 20) (lookup_server server 23 own many (user, [])).1.1
    × ((lookup_server server 23 own many (user, [])).0 ≢ failure out_of_fuel)
lookup_server-Inv_example =
    lookup_server-Inv server (All (λ us. length us ≤ 20)) 22 own many user []
      (λ cert own' us x short i. (short, i)) (λ x i. i) (omega arith) tt

abbrev pub plain : LookupParams
plain = record { force = false; limited = false; always_use_cache = false }

abbrev pub fresh_user : LookupUser
fresh_user = record user { lookup_cache = ((own, friend), record result { time = 590000000 }) ∷ [] }

-- The remembered result is recent, and so it answers a lookup.
pub friend-Answers :
    All (λ v. Answers plain 600000000 (memory_get fresh_user.lookup_cache own v)) (friend ∷ [])
unfolding memory_get find same_tuple same_uri equal
friend-Answers =
    (record { not_expired = omega arith; is_recent = inr (refl, omega arith, inl refl) }, tt)

answer_inj : {a b : Results} → answer a ≡ answer b → a ≡ b
answer_inj {a = a} e = ap (λ x. elim x [ answer rs ↦ rs | failure f ↦ a ]) e

abbrev is_answer : Answer → Bool
is_answer (answer rs) = true
is_answer (failure e) = false

-- What the server answers for its user.
served_friend :
    (results : Results)
    → reply_answer 600000000 (serve (friend ∷ [])) ≡ answer results
    → Covers (friend ∷ []) results
unfolding reply_answer same_uri equal parsed_results parse_uri validate_uri cut is_email find put
served_friend results e = rw (← (answer_inj e)) (refl, tt)

pub served :
    (us : List ParsedUri) (results : Results)
    → reply_answer 600000000 (serve us) ≡ answer results
    → Covers us results
unfolding reply_answer
served [] results e = tt
served (u ∷ v ∷ us) results e = absurd (ground (arith, ap is_answer e))
served (u ∷ []) results e = elim (Bool-cases (same_uri u friend)) [
  | inl s ↦
      subst
        (λ v. reply_answer 600000000 (serve (v ∷ [])) ≡ answer results → Covers (v ∷ []) results)
        (sym ((same_uri_iff u friend).0 s)) (served_friend results) e
  | inr s ↦ absurd (ground (arith, s, ap is_answer e))
]

abbrev pub friend_lookup : (Results × Option LookupError) × (LookupUser × List (List ParsedUri))
friend_lookup = lookup server own plain (friend ∷ []) (user, [])

pub served_fine : friend_lookup.0.1 ≡ none
unfolding lookup ask_remaining sort_out memory_get_many find missing contains lookup_server attempt
    actually_lookup_server auth_id_cert_pair equal reply_answer same_uri
served_fine = refl
