-- ===== src/Ids/Cache/Agreement.antt =====
-- The two caches of lookup results against one account of what a cache remembers of a pair of URIs.
use imessage_for_me.Uri.Order.Sorted.{uri_key, contains}
use imessage_for_me.Base.{
  ℕ, ◌-◌, ◌≡◌, refl, sym, ap, ◌∙◌, true, List, [], ◌∷◌, Option, none, some, if◌then◌else◌,
  Bool-cases, inl, inr, arith, Bool, false, ◌==◌, ◌*◌, ◌/◌, ◌&&◌, All,
}
use imessage_for_me.Base.Assoc.{same_sym, find, find-put, find-delete}
use imessage_for_me.Uri.{ParsedUri, same_uri}
use imessage_for_me.Ids.Cache.{
  LookupIdentity, LookupResult, UriTuple, same_tuple, tuple_key, CacheCall, puts, deletes,
  invalidates, marks_broadcasted, clears, Memory, Table, min_result_refresh_interval, min,
  memory_step, memory_run, memory_mark, memory_get, with_broadcasted, with_time_limit, table_step,
  table_run, table_mark, table_invalidate, table_get, upsert, stamped, scanned, scanned_row,
  scanned_as, IdsCacheEntry, Json, sqlite, postgres, millisecond, invalidated,
}

-- What is remembered of a pair of URIs: the identities and their age.
abbrev pub Remembered : Type 0
Remembered = Option (List LookupIdentity × ℕ)

unfoldable pub erased : Option LookupResult → Remembered
erased none = none
erased (some r) = some (r.identities, r.time)

unfoldable aged : ℕ → Remembered → Remembered
aged limit none = none
aged limit (some (is, time)) = some (is, min time limit)

-- The account: what a call does to the memory of one pair.
unfoldable pub after : UriTuple → ℕ × CacheCall → Remembered → Remembered
unfolding aged
after k (now, puts our their r) e =
    if same_tuple (our, their) k then erased (some (stamped now r)) else e
after k (now, deletes our their) e = if same_tuple (our, their) k then none else e
after k (now, invalidates our their) e =
    if same_tuple (our, their) k then aged (now - min_result_refresh_interval) e else e
after k (now, marks_broadcasted handle theirs) e = e
after k (now, clears) e = none

unfoldable pub after_all : UriTuple → List (ℕ × CacheCall) → Remembered → Remembered
after_all k [] e = e
after_all k (c ∷ cs) e = after_all k cs (after k c e)

find_same : (a k : UriTuple) (m : Memory) → same_tuple a k ≡ true → find a m ≡ find k m
find_same a k m e = ap (λ j. find j m) ((tuple_key.same_iff a k).0 e)

erased-mark :
    (k a : UriTuple) (m : Memory) (e : Option LookupResult)
    → find a m ≡ e
    → erased (find k (with_broadcasted e a m)) ≡ erased (find k m)
unfolding erased
erased-mark k a m none h = refl
erased-mark k a m (some r) h = elim (Bool-cases (same_tuple a k)) [
  | inl e ↦
      rw (find-put a k (record r { broadcasted = true }) m, e)
        (rw (sym (find_same a k m e), h) refl)
  | inr e ↦ rw (find-put a k (record r { broadcasted = true }) m, e) refl
]

erased-memory_mark :
    (k : UriTuple) (our : ParsedUri) (theirs : List ParsedUri) (m : Memory)
    → erased (find k (memory_mark m our theirs)) ≡ erased (find k m)
unfolding memory_mark
erased-memory_mark k our [] m = refl
erased-memory_mark k our (their ∷ theirs) m =
    erased-memory_mark k our theirs (with_broadcasted (find (our, their) m) (our, their) m)
    ∙ erased-mark k (our, their) m _ refl

erased-limit :
    (now : ℕ) (k a : UriTuple) (m : Memory) (e : Option LookupResult)
    → find a m ≡ e
    → erased (find k (with_time_limit now e a m)) ≡ (
        if same_tuple a k
        then aged (now - min_result_refresh_interval) (erased (find k m))
        else erased (find k m))
unfolding erased aged
erased-limit now k a m none h = elim (Bool-cases (same_tuple a k)) [
  | inl e ↦ rw (e, sym (find_same a k m e), h) refl
  | inr e ↦ rw e refl
]
erased-limit now k a m (some r) h =
    let old = now - min_result_refresh_interval in
    let put_old = find-put a k (record r { time = old }) m in
    elim (Bool-cases (same_tuple a k)) [
      | inl e ↦
          rw (e, sym (find_same a k m e), h) (ground (arith, put_old, sym (find_same a k m e) ∙ h))
      | inr e ↦ rw e (ground (arith, put_old))
    ]

-- Each call on the cache in memory does to the memory of a pair what the account says.
erased-memory_step :
    (k : UriTuple) (c : ℕ × CacheCall) (m : Memory)
    → erased (find k (memory_step m c)) ≡ after k c (erased (find k m))
unfolding memory_step after erased find
erased-memory_step k (now, puts our their r) m =
    rw (find-put (our, their) k (stamped now r) m) (ground arith)
erased-memory_step k (now, deletes our their) m = rw (find-delete (our, their) k m) (ground arith)
erased-memory_step k (now, invalidates our their) m = erased-limit now k (our, their) m _ refl
erased-memory_step k (now, marks_broadcasted handle theirs) m = erased-memory_mark k handle theirs m
erased-memory_step k (now, clears) m = refl

same_tuple_via : (j k a : UriTuple) → same_tuple j k ≡ true → same_tuple j a ≡ same_tuple a k
same_tuple_via j k a e = rw ((tuple_key.same_iff j k).0 e) (same_sym tuple_key k a)

-- Whole milliseconds.
abbrev pub whole : ℕ → ℕ
whole t = t / millisecond * millisecond

-- What a database remembers, which keeps whole milliseconds only.
abbrev pub truncated : Remembered → Remembered
truncated none = none
truncated (some (is, time)) = some (is, whole time)

min-whole : (a b : ℕ) → min (whole a) (whole b) ≡ whole (min a b)
min-whole a b = ground arith

min_times : (a b : ℕ) → min a b * millisecond ≡ min (a * millisecond) (b * millisecond)
min_times a b = ground arith

truncated-aged :
    (limit : ℕ) (e : Remembered) → aged (whole limit) (truncated e) ≡ truncated (aged limit e)
unfolding aged
truncated-aged limit none = refl
truncated-aged limit (some (is, time)) = ap (λ t. some (is, t)) (min-whole time limit)

flag_as :
    (t : ℕ) (b b' : Bool) (o : Option (List LookupIdentity))
    → erased (scanned_as t b o) ≡ erased (scanned_as t b' o)
unfolding erased
flag_as t b b' none = refl
flag_as t b b' (some is) = refl

limit_as :
    (t limit : ℕ) (b : Bool) (o : Option (List LookupIdentity))
    → erased (scanned_as (min t limit) b o) ≡ aged (limit * millisecond) (erased (scanned_as t b o))
unfolding erased aged
limit_as t limit b none = refl
limit_as t limit b (some is) = ap (λ x. some (is, x)) (min_times t limit)

stamped-erased :
    (now : ℕ) (r : LookupResult)
    → some (r.identities, whole (stamped now r).time) ≡ truncated (erased (some (stamped now r)))
unfolding erased stamped
stamped-erased now r = elim (Bool-cases (r.time == 0)) [ inl e ↦ rw e refl | inr e ↦ rw e refl ]

module _ (json : Json) where
  abbrev row_erased : Option IdsCacheEntry → Remembered
  row_erased o = erased (scanned_row json o)

  mark_row :
      (row : IdsCacheEntry) (b : Bool)
      → row_erased (some (if b then record row { broadcasted = true } else row))
        ≡ row_erased (some row)
  unfolding scanned
  mark_row row true = flag_as row.timestamp true row.broadcasted (json.decode row.result)
  mark_row row false = refl

  row_erased-mark :
      (k : UriTuple) (our : ParsedUri) (theirs : List ParsedUri) (t : Table)
      → row_erased (find k (table_mark our theirs t)) ≡ row_erased (find k t)
  unfolding table_mark find
  row_erased-mark k our theirs [] = refl
  row_erased-mark k our theirs ((j, row) ∷ t) = elim (Bool-cases (same_tuple j k)) [
    | inl e ↦ rw e (mark_row row (same_uri j.0 our && contains theirs j.1))
    | inr e ↦ rw e (row_erased-mark k our theirs t)
  ]

  limit_row :
      (row : IdsCacheEntry) (limit : ℕ)
      → row_erased (some (record row { timestamp = min row.timestamp limit }))
        ≡ aged (limit * millisecond) (row_erased (some row))
  unfolding scanned
  limit_row row limit = limit_as row.timestamp limit row.broadcasted (json.decode row.result)

  row_erased-invalidate :
      (k a : UriTuple) (limit : ℕ) (t : Table)
      → row_erased (find k (table_invalidate limit a t)) ≡ (
          if same_tuple a k
          then aged (limit * millisecond) (row_erased (find k t))
          else row_erased (find k t))
  unfolding table_invalidate find aged erased
  row_erased-invalidate k a limit [] = ground arith
  row_erased-invalidate k a limit ((j, row) ∷ t) = elim (Bool-cases (same_tuple j k)) [
    | inr e ↦ rw e (row_erased-invalidate k a limit t)
    | inl e ↦
        rw (e, same_tuple_via j k a e)
          (elim (Bool-cases (same_tuple a k)) [
            | inl f ↦ rw f (limit_row row limit)
            | inr f ↦ rw f refl
          ])
  ]

  -- The JSON of a result that is put gives its identities back.
  abbrev pub IsReadBack : ℕ × CacheCall → Type 0
  IsReadBack (now, puts our their r) = json.decode (json.encode r) ≡ some r.identities
  IsReadBack c = Unit

  put_row :
      (now : ℕ) (r : LookupResult) (b : Bool)
      → json.decode (json.encode r) ≡ some r.identities
      → row_erased (
          some (record {
            timestamp = (stamped now r).time / millisecond;
            result = json.encode r;
            broadcasted = b;
          }))
        ≡ truncated (erased (some (stamped now r)))
  unfolding scanned erased
  put_row now r b reads =
      ap (λ o. erased (scanned_as ((stamped now r).time / millisecond) b o)) reads
      ∙ stamped-erased now r

  -- Each call on the table does the same, in whole milliseconds.
  row_erased-step :
      (k : UriTuple) (c : ℕ × CacheCall) (t : Table) (e : Remembered)
      → IsReadBack c
      → row_erased (find k t) ≡ truncated e
      → row_erased (find k (table_step json sqlite t c)) ≡ truncated (after k c e)
  unfolding table_step after upsert find invalidated erased
  row_erased-step k (now, puts our their r) t e b h =
      elim (Bool-cases (same_tuple (our, their) k)) [
        | inl f ↦ rw (f, find-put (our, their) k _ t) (rw f (put_row now r _ b))
        | inr f ↦ rw (f, find-put (our, their) k _ t) (rw f h)
      ]
  row_erased-step k (now, deletes our their) t e b h =
      elim (Bool-cases (same_tuple (our, their) k)) [
        | inl f ↦ rw (f, find-delete (our, their) k t) (rw f refl)
        | inr f ↦ rw (f, find-delete (our, their) k t) (rw f h)
      ]
  row_erased-step k (now, invalidates our their) t e b h =
      let limit = now - min_result_refresh_interval in
      row_erased-invalidate k (our, their) (limit / millisecond) t
      ∙ elim (Bool-cases (same_tuple (our, their) k)) [
        | inl f ↦ rw f (ap (aged (whole limit)) h ∙ truncated-aged limit e)
        | inr f ↦ rw f h
      ]
  row_erased-step k (now, marks_broadcasted handle theirs) t e b h =
      row_erased-mark k handle theirs t ∙ h
  row_erased-step k (now, clears) t e b h = refl

  table_run-after :
      (our their : ParsedUri) (cs : List (ℕ × CacheCall)) (t : Table) (e : Remembered)
      → All IsReadBack cs
      → row_erased (find (our, their) t) ≡ truncated e
      → row_erased (find (our, their) (table_run json sqlite t cs))
        ≡ truncated (after_all (our, their) cs e)
  unfolding table_run after_all
  table_run-after our their [] t e b h = h
  table_run-after our their (c ∷ cs) t e b h =
      table_run-after our their cs (table_step json sqlite t c) (after (our, their) c e) b.1
        (row_erased-step (our, their) c t e b.0 h)

memory_run-after :
    (our their : ParsedUri) (cs : List (ℕ × CacheCall)) (m : Memory)
    → erased (memory_get (memory_run m cs) our their)
      ≡ after_all (our, their) cs (erased (memory_get m our their))
unfolding memory_run after_all memory_get
memory_run-after our their [] m = refl
memory_run-after our their (c ∷ cs) m =
    memory_run-after our their cs (memory_step m c)
    ∙ ap (after_all (our, their) cs) (erased-memory_step (our, their) c m)

-- If the JSON of each result that is put gives its identities back, after any calls, the cache in
-- memory holds of a pair of URIs what the account makes of what it held before, the identities and
-- the time, and a database under SQLite holds the same but for the time, which it keeps in whole
-- milliseconds, where it held that before.
pub caches_implement :
    (json : Json) (our their : ParsedUri) (cs : List (ℕ × CacheCall)) (m : Memory) (t : Table)
    → All (IsReadBack json) cs
    → erased (table_get json t our their) ≡ truncated (erased (memory_get m our their))
    → (erased (memory_get (memory_run m cs) our their)
        ≡ after_all (our, their) cs (erased (memory_get m our their)))
      × (erased (table_get json (table_run json sqlite t cs) our their)
          ≡ truncated (after_all (our, their) cs (erased (memory_get m our their))))
unfolding table_get
caches_implement json our their cs m t reads h = (
  memory_run-after our their cs m,
  table_run-after json our their cs t (erased (memory_get m our their)) reads h,
)

-- Under PostgreSQL an invalidation fails, and the row stays as it was.
pub table_step_postgres :
    (json : Json) (our their : ParsedUri) (now : ℕ) (t : Table)
    → ((invalidated postgres now (our, their) t).1 ≡ true)
      × (table_step json postgres t (now, invalidates our their) ≡ t)
unfolding invalidated table_step
table_step_postgres json our their now t = (refl, refl)
