-- ===== src/Ids/Cache.antt =====
-- The cache of lookup results: `InMemoryLookupCache` of imessage/imessage/direct/ids/lookup.go, and
-- `IDSCache` of imessage/database/idscache.go for one user, with the meaning of its SQL statements.
-- Times are nanoseconds since 1970, and 0 is the zero time; the clock is the argument `now`. Which
-- dialect the database speaks, and the JSON of the results, are arguments. The cache in memory holds
-- and hands out its entries by reference: here each result that is put is an object of its own, and
-- nobody but the cache writes to it afterwards.
pub mod Agreement
pub mod Many
use imessage_for_me.Uri.Order.Sorted.{uri_key, contains}
use imessage_for_me.Base.{
  ℕ, ◌-◌, ◌*◌, ◌/◌, ◌≡◌, ◌↔◌, Bool, true, false, not, ◌&&◌, ◌||◌, List, [], ◌∷◌, Option, none, some,
  Bytes, equal, ltb, leb, ◌==◌, if◌then◌else◌, arith,
}
use imessage_for_me.Base.Assoc.{Key, find, put, delete}
use imessage_for_me.Uri.{ParsedUri, same_uri}
use imessage_for_me.Uri.Order.Sorted.{same_uri_iff}

-- `LookupIdentity`: of the keys, which ones there are.
pub record LookupIdentity : Type 0 where
  pub push_token : Bytes
  pub session_token : Bytes
  pub has_identity_key : Bool
  pub has_prekey : Bool
  pub has_ngm_identity : Bool
  pub has_kt_data : Bool

pub record LookupResult : Type 0 where
  pub identities : List LookupIdentity
  pub time : ℕ
  pub broadcasted : Bool

-- The test on an identity whose token was found.
unfoldable pub has_ngm_key : LookupIdentity → Bool
has_ngm_key i = i.has_prekey && (i.has_ngm_identity || i.has_kt_data)

-- `FindIdentity`: the first identity with the token decides.
unfoldable pub find_identity : Bytes → Bool → List LookupIdentity → Option LookupIdentity
find_identity token require_ngm_key [] = none
find_identity token require_ngm_key (i ∷ is) =
    if equal i.push_token token
    then (if require_ngm_key && not (has_ngm_key i) then none else some i)
    else find_identity token require_ngm_key is

-- `uriTuple`.
abbrev pub UriTuple : Type 0
UriTuple = ParsedUri × ParsedUri

unfoldable pub same_tuple : UriTuple → UriTuple → Bool
same_tuple (our, their) (our', their') = same_uri our our' && same_uri their their'

pub same_tuple_iff : (a b : UriTuple) → (same_tuple a b ≡ true) ↔ (a ≡ b)
unfolding same_tuple
same_tuple_iff (our, their) (our', their') =
    ground (arith, same_uri_iff our our', same_uri_iff their their')

instance abbrev pub tuple_key : Key UriTuple
tuple_key = record { same = same_tuple; same_iff = same_tuple_iff }

abbrev pub hour : ℕ
hour = 60 * 60 * (1000 * 1000 * 1000)

abbrev pub day : ℕ
day = 24 * hour

abbrev pub min_result_refresh_interval : ℕ
min_result_refresh_interval = day

abbrev pub min_negative_result_refresh_interval : ℕ
min_negative_result_refresh_interval = hour

abbrev pub result_expiry : ℕ
result_expiry = 7 * day

-- A result with no time of its own gets that of the clock.
unfoldable pub stamped : ℕ → LookupResult → LookupResult
stamped now r = if r.time == 0 then record r { time = now } else r

-- What a client asks of a cache, with the time on the clock.
pub data CacheCall : Type 0 where
  puts : ParsedUri → ParsedUri → LookupResult → CacheCall
  deletes invalidates : ParsedUri → ParsedUri → CacheCall
  marks_broadcasted : ParsedUri → List ParsedUri → CacheCall
  clears : CacheCall

-- `InMemoryLookupCache`.
abbrev pub Memory : Type 0
Memory = List (UriTuple × LookupResult)

abbrev pub with_broadcasted : Option LookupResult → UriTuple → Memory → Memory
with_broadcasted none k m = m
with_broadcasted (some r) k m = put k (record r { broadcasted = true }) m

unfoldable pub memory_mark : Memory → ParsedUri → List ParsedUri → Memory
memory_mark m handle [] = m
memory_mark m handle (their ∷ theirs) =
    memory_mark (with_broadcasted (find (handle, their) m) (handle, their) m) handle theirs

-- `Invalidate` of the entry that was found.
abbrev pub with_time_limit : ℕ → Option LookupResult → UriTuple → Memory → Memory
with_time_limit now none k m = m
with_time_limit now (some r) k m =
    if ltb (now - r.time) min_result_refresh_interval
    then put k (record r { time = now - min_result_refresh_interval }) m
    else m

unfoldable pub memory_step : Memory → ℕ × CacheCall → Memory
memory_step m (now, puts our their r) = put (our, their) (stamped now r) m
memory_step m (now, deletes our their) = delete (our, their) m
memory_step m (now, invalidates our their) =
    with_time_limit now (find (our, their) m) (our, their) m
memory_step m (now, marks_broadcasted handle theirs) = memory_mark m handle theirs
memory_step m (now, clears) = []

-- The JSON that a database column holds: of a result, without its time and flag, and the reading of
-- its identities, which may fail.
pub record Json : Type 0 where
  pub encode : LookupResult → Bytes
  pub decode : Bytes → Option (List LookupIdentity)

-- `dbutil.Dialect`.
pub data Dialect : Type 0 where
  sqlite postgres : Dialect

abbrev pub millisecond : ℕ
millisecond = 1000 * 1000

-- A row of `ids_cache` for the user, with its time in milliseconds.
pub record IdsCacheEntry : Type 0 where
  pub timestamp : ℕ
  pub result : Bytes
  pub broadcasted : Bool

abbrev pub Table : Type 0
Table = List (UriTuple × IdsCacheEntry)

-- `Put` and `Upsert`: with a conflict the flag of the row is kept.
abbrev pub kept_flag : Option IdsCacheEntry → Bool → Bool
kept_flag none new = new
kept_flag (some row) new = row.broadcasted

unfoldable pub upsert : Json → ℕ → UriTuple → LookupResult → Table → Table
upsert json now k r t =
    put k
      (record {
        timestamp = (stamped now r).time / millisecond;
        result = json.encode r;
        broadcasted = kept_flag (find k t) r.broadcasted;
      })
      t

-- `markBroadcastedQuery`.
unfoldable pub table_mark : ParsedUri → List ParsedUri → Table → Table
table_mark handle theirs [] = []
table_mark handle theirs (((our, their), row) ∷ t) =
    (
      (our, their),
      (if same_uri our handle && contains theirs their
          then record row { broadcasted = true }
          else row),
    )
    ∷ table_mark handle theirs t

-- `invalidateIDSCacheEntryQuery`.
abbrev pub min : ℕ → ℕ → ℕ
min a b = if leb a b then a else b

unfoldable pub table_invalidate : ℕ → UriTuple → Table → Table
table_invalidate limit k [] = []
table_invalidate limit k ((j, row) ∷ t) =
    (j, (if same_tuple j k then record row { timestamp = min row.timestamp limit } else row))
    ∷ table_invalidate limit k t

-- `Invalidate`, with whether the statement fails: in PostgreSQL `MIN` is an aggregate of one argument.
unfoldable pub invalidated : Dialect → ℕ → UriTuple → Table → Table × Bool
invalidated sqlite now k t =
    (table_invalidate ((now - min_result_refresh_interval) / millisecond) k t, false)
invalidated postgres now k t = (t, true)

unfoldable pub table_step : Json → Dialect → Table → ℕ × CacheCall → Table
table_step json dialect t (now, puts our their r) = upsert json now (our, their) r t
table_step json dialect t (now, deletes our their) = delete (our, their) t
table_step json dialect t (now, invalidates our their) = (invalidated dialect now (our, their) t).0
table_step json dialect t (now, marks_broadcasted handle theirs) = table_mark handle theirs t
table_step json dialect t (now, clears) = []

abbrev pub scanned_as : ℕ → Bool → Option (List LookupIdentity) → Option LookupResult
scanned_as timestamp broadcasted none = none
scanned_as timestamp broadcasted (some is) =
    some (record { identities = is; time = timestamp * millisecond; broadcasted = broadcasted })

-- `Scan`; nothing with an error.
unfoldable pub scanned : Json → IdsCacheEntry → Option LookupResult
scanned json row = scanned_as row.timestamp row.broadcasted (json.decode row.result)

-- `Get` of each cache.
unfoldable pub memory_get : Memory → ParsedUri → ParsedUri → Option LookupResult
memory_get m our their = find (our, their) m

abbrev pub put_found :
    ParsedUri
    → Option LookupResult
    → List (ParsedUri × LookupResult)
    → List (ParsedUri × LookupResult)
put_found their none results = results
put_found their (some r) results = put their r results

-- `GetMany`; the order in which the results are filled in does not matter.
unfoldable pub memory_get_many :
    Memory → ParsedUri → List ParsedUri → List (ParsedUri × LookupResult)
memory_get_many m our [] = []
memory_get_many m our (their ∷ theirs) =
    put_found their (find (our, their) m) (memory_get_many m our theirs)

abbrev pub scanned_row : Json → Option IdsCacheEntry → Option LookupResult
scanned_row json none = none
scanned_row json (some row) = scanned json row

unfoldable pub table_get : Json → Table → ParsedUri → ParsedUri → Option LookupResult
table_get json t our their = scanned_row json (find (our, their) t)

-- Any calls, one after the other.
unfoldable pub memory_run : Memory → List (ℕ × CacheCall) → Memory
memory_run m [] = m
memory_run m (c ∷ cs) = memory_run (memory_step m c) cs

unfoldable pub table_run : Json → Dialect → Table → List (ℕ × CacheCall) → Table
table_run json dialect t [] = t
table_run json dialect t (c ∷ cs) = table_run json dialect (table_step json dialect t c) cs
