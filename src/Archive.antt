-- ===== src/Archive.antt =====
-- imessage/imessage/direct/util/nskeyedarchive/parse.go: property lists of NSKeyedArchiver. Values
-- are decoded by a library; a map is the list of its entries, in the order in which Go's range
-- visits them. A type assertion that fails, and an index out of range, panic.
pub mod Ranked
pub mod Cycle
use imessage_for_me.Base.{
  ℕ, zero, suc, ◌+◌, ◌≡◌, Bool, true, false, not, ◌&&◌, ◌||◌, List, [], ◌∷◌, Option, none, some,
  Bytes, codes, equal, if◌then◌else◌,
}
use imessage_for_me.Apns.Payload.{Run, returned, panicked, out_of_fuel, ◌>>=◌}

-- What a decoded property list holds: Go's `any` by its dynamic type.
mutual
  pub data Value : Type 0 where
    null : Value
    text : Bytes → Value
    number : ℕ → Value
    blob : Bytes → Value
    uid : ℕ → Value
    array : Values → Value
    dict : Entries → Value
    other : Value

  pub data Values : Type 0 where
    no_values : Values
    value : Value → Values → Values

  pub data Entries : Type 0 where
    no_entries : Entries
    entry : Bytes → Value → Entries → Entries

-- Reading, writing and deleting at a key of a map.
unfoldable pub get : Bytes → Entries → Option Value
get k no_entries = none
get k (entry j v es) = if equal k j then some v else get k es

unfoldable pub set : Bytes → Value → Entries → Entries
set k v no_entries = entry k v no_entries
set k v (entry j w es) = let rest = set k v es in if equal k j then entry j v es else entry j w rest

unfoldable pub remove : Bytes → Entries → Entries
remove k no_entries = no_entries
remove k (entry j w es) = let rest = remove k es in if equal k j then rest else entry j w rest

-- `Objects` of the payload. A map in it is shared with the values that were made of it, so that an
-- object whose references were replaced is found replaced later.
abbrev pub Objects : Type 0
Objects = List Value

unfoldable pub get_elem? : Objects → ℕ → Option Value
get_elem? [] n = none
get_elem? (v ∷ vs) zero = some v
get_elem? (v ∷ vs) (suc n) = get_elem? vs n

abbrev update : (Entries → Entries) → Value → Value
update f (dict es) = dict (f es)
update f v = v

-- A write to the map that stands at an index.
unfoldable pub modify : ℕ → (Entries → Entries) → Objects → Objects
modify n f [] = []
modify zero f (v ∷ vs) = update f v ∷ vs
modify (suc n) f (v ∷ vs) = v ∷ modify n f vs

-- A call of `Parse`, with the objects that it leaves. It returns no error but those of its own calls,
-- that is, none.
abbrev pub Parser : Type 0
Parser = ℕ → Objects → Run (Value × Objects)

-- `k.(plist.UID)`, `obj[…].([]any)` and `parsedKey.(string)`.
abbrev pub as_uid : Value → Run ℕ
as_uid (uid n) = returned n
as_uid v = panicked

abbrev pub as_array : Option Value → Run Values
as_array (some (array vs)) = returned vs
as_array v = panicked

abbrev pub as_text : Value → Run Bytes
as_text (text s) = returned s
as_text v = panicked

-- The loop over `NS.keys`, with the values that are not used yet.
unfoldable pub parse_pairs : Parser → Values → Values → Entries → Objects → Run (Value × Objects)
parse_pairs parse no_values vs out objs = returned (dict out, objs)
parse_pairs parse (value k ks) no_values out objs = do
  n ← as_uid k
  (key, objs') ← parse n objs
  panicked
parse_pairs parse (value k ks) (value v vs) out objs = do
  n ← as_uid k
  (key, objs') ← parse n objs
  s ← as_text key
  m ← as_uid v
  (x, objs'') ← parse m objs'
  parse_pairs parse ks vs (set s x out) objs''

-- The loop over the entries of any other map, the one at the index `at_idx`.
unfoldable pub parse_entries : Parser → ℕ → Entries → Objects → Run Objects
parse_entries parse at_idx no_entries objs = returned objs
parse_entries parse at_idx (entry k (uid n) es) objs =
    if equal k (codes "$class")
    then parse_entries parse at_idx es (modify at_idx (remove k) objs)
    else (do
      (x, objs') ← parse n objs
      parse_entries parse at_idx es (modify at_idx (set k x) objs'))
parse_entries parse at_idx (entry k v es) objs =
    parse_entries parse at_idx es
      (if equal k (codes "$class") then modify at_idx (remove k) objs else objs)

abbrev pub has : Bytes → Entries → Bool
has k es = elim (get k es) [ none ↦ false | some v ↦ true ]

abbrev stored : ℕ → Objects → Run (Value × Objects)
stored n objs = elim (get_elem? objs n) [ none ↦ panicked | some v ↦ returned (v, objs) ]

-- The case of a map.
unfoldable pub parse_map : Parser → ℕ → Entries → Objects → Run (Value × Objects)
unfolding parse_pairs parse_entries
parse_map parse n es objs =
    if has (codes "NS.keys") es && has (codes "NS.objects") es
    then (do
      vs ← as_array (get (codes "NS.objects") es)
      ks ← as_array (get (codes "NS.keys") es)
      parse_pairs parse ks vs no_entries objs)
    else (do objs' ← parse_entries parse n es objs; stored n objs')

-- The cases of the object at an index.
unfoldable pub parse_object : Parser → ℕ → Option Value → Objects → Run (Value × Objects)
parse_object parse n none objs = panicked
parse_object parse n (some (text s)) objs =
    returned (if equal s (codes "$null") then null else text s, objs)
parse_object parse n (some (dict es)) objs = parse_map parse n es objs
parse_object parse n (some v) objs = returned (v, objs)

-- The method `Parse`. Go has no bound on the calls of it by itself but the stack.
unfoldable pub parse : ℕ → Parser
unfolding parse_object parse_map parse_pairs parse_entries
parse zero n objs = out_of_fuel
parse (suc fuel) n objs = parse_object (parse fuel) n (get_elem? objs n) objs

-- `NSKeyedArchivePayload`.
pub record Archive : Type 0 where
  pub archiver : Bytes
  pub objects : Objects
  pub root : ℕ

-- The function `Parse`, on what the library decoded; `none` is an error.
unfoldable pub parse_archive : ℕ → Option Archive → Run (Option Value)
parse_archive fuel none = returned none
parse_archive fuel (some a) =
    if not (equal a.archiver (codes "NSKeyedArchiver"))
    then returned none
    else (do (v, objs) ← parse fuel a.root a.objects; returned (some v))
