-- ===== src/Ids/Lookup.antt =====
-- Lookups at the identity service: imessage/imessage/direct/ids/lookup.go. What stands behind the
-- push connection is the argument `Network`: the exchange of one request with the server, the
-- registration, the rate limiter and the clock, over a state of its own. The cache is the one in
-- memory, whose calls do not fail. `Lookup` itself is in Ids/Lookup/Cached.
pub mod Cached
pub mod Coverage
pub mod Queries
use imessage_for_me.Base.{
  ℕ, zero, suc, ◌+◌, ◌-◌, ◌/◌, ◌≡◌, Bool, true, false, not, ◌&&◌, ◌||◌, List, [], ◌∷◌, ◌++◌, Option,
  none, some, Bytes, codes, equal, ltb, leb, ◌==◌, if◌then◌else◌, length, take, drop, is_nil,
}
use imessage_for_me.Base.Assoc.{Key, bytes_key, find, put, delete}
use imessage_for_me.Uri.{ParsedUri, Result, ok, err, tel, empty_uri, parse_uri, same_uri}
use imessage_for_me.Uri.Order.Sorted.{uri_key, contains}
use imessage_for_me.Ids.Cache.{
  LookupIdentity, LookupResult, UriTuple, tuple_key, Memory, memory_get, memory_get_many,
  find_identity, hour, min_result_refresh_interval, min_negative_result_refresh_interval,
  result_expiry, stamped,
}

abbrev pub Results : Type 0
Results = List (ParsedUri × LookupResult)

-- `LookupResults`, as decompressed and decoded from the body of the reply.
pub record LookupResults : Type 0 where
  pub results : List (Bytes × LookupResult)
  pub status : ℕ

-- How the exchange of `actuallyLookupServer` with the server ends: a reply with its status and its
-- body, which is nothing where it cannot be decoded.
pub data Reply : Type 0 where
  not_sent cancelled timed_out : Reply
  replied : ℕ → Option LookupResults → Reply

-- How `parentRegisterIDS` ends: with the handles and certificates, or with the status of the error.
pub data Registration : Type 0 where
  registered : List ParsedUri → List (Bytes × Bytes) → Registration
  unregistered : ℕ → Registration

pub record Network (W : Type 0) : Type 0 where
  pub clock : W → ℕ
  pub exchange : Bytes → ParsedUri → List ParsedUri → W → Reply × W
  pub register : W → Registration × W
  pub allow : ℕ → W → Bool × W

pub data LookupError : Type 0 where
  no_certificate failed_exchange undecodable : LookupError
  ids_error : ℕ → LookupError
  login_required lost_handle out_of_fuel : LookupError
  not_reregistered : ℕ → LookupError

-- The part of `User` that the lookups use; a `last_lookup_reregister` of 0 is the zero time.
pub record LookupUser : Type 0 where
  pub handles : List ParsedUri
  pub auth_id_cert_pairs : List (Bytes × Bytes)
  pub profile_id : Bytes
  pub lookup_error_count : ℕ
  pub last_lookup_reregister : ℕ
  pub lookup_cache : Memory
  pub reroute_history : List (ParsedUri × ℕ)

pub data Answer : Type 0 where
  answer : Results → Answer
  failure : LookupError → Answer

abbrev pub action_refresh_credentials : ℕ
action_refresh_credentials = 6005

abbrev pub proxy_response_too_large : ℕ
proxy_response_too_large = 5206

abbrev or_cert : Option Bytes → Option Bytes → Option Bytes
or_cert none o = o
or_cert (some c) o = some c

unfoldable pub auth_id_cert_pair : LookupUser → ParsedUri → Option Bytes
auth_id_cert_pair u own =
    let of_profile = find u.profile_id u.auth_id_cert_pairs in
    if equal own.scheme tel
    then or_cert (find (codes "P:" ++ own.identifier) u.auth_id_cert_pairs) of_profile
    else of_profile

abbrev parsed : Result → ParsedUri
parsed (ok u) = u
parsed (err e) = empty_uri

-- The loop that parses the URIs of the results, each with the time of the clock.
unfoldable pub parsed_results : ℕ → List (Bytes × LookupResult) → Results → Results
parsed_results now [] done = done
parsed_results now ((u, r) ∷ rs) done =
    parsed_results now rs (put (parsed (parse_uri u)) (record r { time = now }) done)

unfoldable pub reply_answer : ℕ → Reply → Answer
reply_answer now not_sent = failure failed_exchange
reply_answer now cancelled = failure failed_exchange
reply_answer now timed_out = failure failed_exchange
reply_answer now (replied status none) =
    if status == 0 then failure undecodable else failure (ids_error status)
reply_answer now (replied status (some rs)) =
    if not (status == 0)
    then failure (ids_error status)
    else if not (rs.status == 0)
    then failure (ids_error rs.status)
    else answer (parsed_results now rs.results [])

-- `maps.Copy`.
unfoldable pub copy_results : Results → Results → Results
copy_results done [] = done
copy_results done ((u, r) ∷ rs) = copy_results (put u r done) rs

abbrev pub refresh_credentials : Answer → Bool
refresh_credentials (answer rs) = false
refresh_credentials (failure (ids_error s)) = s == action_refresh_credentials
refresh_credentials (failure e) = false

abbrev pub too_large : Answer → Bool
too_large (answer rs) = false
too_large (failure (ids_error s)) = s == proxy_response_too_large
too_large (failure e) = false

-- The two resets behind an answer without an error.
abbrev pub reset_errors : Answer → LookupUser → LookupUser
reset_errors (answer rs) u = record u { lookup_error_count = 0; last_lookup_reregister = 0 }
reset_errors (failure e) u = u

abbrev pub register_error : ℕ → LookupError
register_error s = if s == action_refresh_credentials then login_required else not_reregistered s

abbrev pub second_half : Results → Answer → Answer
second_half part (answer rs) = answer (copy_results part rs)
second_half part (failure e) = failure e

-- An answer with what it leaves of the user and the network.
abbrev pub Outcome : Type 0 → Type 0
Outcome W = Answer × (LookupUser × W)

pub data Attempt (W : Type 0) : Type 0 where
  finished : Answer → LookupUser × W → Attempt W
  must_split : LookupUser × W → Attempt W

module _ {W : Type 0} where
  abbrev pub then_second : (LookupUser × W → Outcome W) → Outcome W → Outcome W
  then_second second (answer part, s) = let (a, s') = second s in (second_half part a, s')
  then_second second (failure e, s) = (failure e, s)

  -- `splitLookupServer`, over `LookupServer` of a part.
  unfoldable pub split_lookup_server :
      (List ParsedUri → LookupUser × W → Outcome W) → List ParsedUri → LookupUser × W → Outcome W
  split_lookup_server part uris s =
      let split = length uris / 2 in then_second (part (drop split uris)) (part (take split uris) s)

  abbrev pub resumed :
      (List ParsedUri → LookupUser × W → Outcome W) → List ParsedUri → Attempt W → Outcome W
  resumed part uris (finished a s) = (a, s)
  resumed part uris (must_split s) = split_lookup_server part uris s

module _ {W : Type 0} (net : Network W) where
  abbrev pub exchanged : Option Bytes → ParsedUri → List ParsedUri → W → Answer × W
  exchanged none own uris w = (failure no_certificate, w)
  exchanged (some cert) own uris w =
      let (reply, w') = net.exchange cert own uris w in (reply_answer (net.clock w') reply, w')

  unfoldable pub actually_lookup_server : ParsedUri → List ParsedUri → LookupUser → W → Answer × W
  actually_lookup_server own uris u w = exchanged (auth_id_cert_pair u own) own uris w

  -- What follows the registration of `LookupServer`.
  abbrev pub after_registration :
      ParsedUri → List ParsedUri → LookupUser → Registration × W → Outcome W
  after_registration own uris u (unregistered s, w) =
      (failure (register_error s), (record u { last_lookup_reregister = net.clock w }, w))
  after_registration own uris u (registered handles certs, w) =
      let u' : LookupUser = record u {
        handles = handles;
        auth_id_cert_pairs = certs;
        last_lookup_reregister = net.clock w;
      } in
      if not (contains handles own)
      then (failure lost_handle, (u', w))
      else (let (a, w') = actually_lookup_server own uris u' w in (a, (u', w')))

  -- The branch for the error 6005.
  unfoldable pub refreshed_lookup : ParsedUri → List ParsedUri → Answer → LookupUser → W → Outcome W
  refreshed_lookup own uris a u w =
      let u' : LookupUser = record u { lookup_error_count = suc u.lookup_error_count } in
      if ltb (net.clock w - u.last_lookup_reregister) hour && ltb 1 u'.lookup_error_count
      then (a, (u', w))
      else after_registration own uris u' (net.register w)

  abbrev pub judged : ParsedUri → List ParsedUri → LookupUser → Answer × W → Attempt W
  judged own uris u (a, w) =
      if refresh_credentials a
      then (let (a', s) = refreshed_lookup own uris a u w in finished a' s)
      else if too_large a && ltb 1 (length uris)
      then must_split (u, w)
      else finished a (reset_errors a u, w)

  unfoldable pub attempt : ParsedUri → List ParsedUri → LookupUser × W → Attempt W
  attempt own uris (u, w) =
      if ltb 20 (length uris)
      then must_split (u, w)
      else judged own uris u (actually_lookup_server own uris u w)

  -- `LookupServer`. Each split shortens the lists: the fuel bounds their depth.
  unfoldable pub lookup_server : ℕ → ParsedUri → List ParsedUri → LookupUser × W → Outcome W
  lookup_server zero own uris s = (failure out_of_fuel, s)
  lookup_server (suc n) own uris s = resumed (lookup_server n own) uris (attempt own uris s)
