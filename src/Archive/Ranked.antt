-- ===== src/Archive/Ranked.antt =====
-- Archives whose references always go down in some rank are parsed to the end.
pub mod Ended
use imessage_for_me.Base.{
  ℕ, zero, suc, ◌+◌, ◌≤◌, ◌<◌, ◌≡◌, ◌≢◌, refl, Bool, true, false, ◌&&◌, List, [], ◌∷◌, Option, none,
  some, Bytes, codes, equal, arith, Bool-cases, Option-cases, inl, inr, if_elim, some_inj,
}
use imessage_for_me.Apns.Payload.{Run, returned, panicked, out_of_fuel, ◌>>=◌}
use imessage_for_me.Archive.{
  Value, null, text, number, blob, uid, array, dict, other, Values, no_values, value, Entries,
  no_entries, entry, get, set, remove, Objects, get_elem?, modify, update, Parser, as_uid, as_array,
  as_text, parse_pairs, parse_entries, parse_map, parse_object, parse, has,
}

-- A run that returns a value of which `P` holds, or panics.
abbrev pub Ends {ℓ} : {A : Type ℓ} → (A → Type 0) → Run A → Type 0
Ends P (returned a) = P a
Ends P panicked = Unit
Ends P out_of_fuel = ⊥

pub Ends-bind {ℓ κ} :
    {A : Type ℓ} {B : Type κ} (P : A → Type 0) (Q : B → Type 0) (r : Run A) (f : A → Run B)
    → Ends P r
    → ((a : A) → P a → Ends Q (f a))
    → Ends Q (r >>= f)
Ends-bind P Q (returned a) f h k = k a h
Ends-bind P Q panicked f h k = tt
Ends-bind P Q out_of_fuel f h k = absurd h

-- `P` holds of the references that the parser would follow in a value.
abbrev Refer : (ℕ → Type 0) → Value → Type 0
Refer P (uid n) = P n
Refer P _ = Unit

abbrev ReferAll : (ℕ → Type 0) → Values → Type 0
ReferAll P no_values = Unit
ReferAll P (value v vs) = Refer P v × ReferAll P vs

abbrev pub ReferIn : (ℕ → Type 0) → Value → Type 0
ReferIn P (uid n) = P n
ReferIn P (array vs) = ReferAll P vs
ReferIn P _ = Unit

abbrev ReferEntries : (ℕ → Type 0) → Entries → Type 0
ReferEntries P no_entries = Unit
ReferEntries P (entry k v es) = ReferIn P v × ReferEntries P es

abbrev pub RefersTo : (ℕ → Type 0) → Value → Type 0
RefersTo P (dict es) = ReferEntries P es
RefersTo P v = ReferIn P v

ReferAll-mono :
    (P Q : ℕ → Type 0) (vs : Values) → ((n : ℕ) → P n → Q n) → ReferAll P vs → ReferAll Q vs
ReferAll-mono P Q no_values f a = tt
ReferAll-mono P Q (value (uid n) vs) f a = (f n a.0, ReferAll-mono P Q vs f a.1)
ReferAll-mono P Q (value null vs) f a = (tt, ReferAll-mono P Q vs f a.1)
ReferAll-mono P Q (value _ vs) f a = (tt, ReferAll-mono P Q vs f a.1)

ReferIn-mono : (P Q : ℕ → Type 0) (v : Value) → ((n : ℕ) → P n → Q n) → ReferIn P v → ReferIn Q v
ReferIn-mono P Q (uid n) f a = f n a
ReferIn-mono P Q (array vs) f a = ReferAll-mono P Q vs f a
ReferIn-mono P Q _ f a = tt

ReferEntries-set :
    (P : ℕ → Type 0) (k : Bytes) (v : Value) (es : Entries)
    → ReferIn P v
    → ReferEntries P es
    → ReferEntries P (set k v es)
unfolding set
ReferEntries-set P k v no_entries h a = (h, tt)
ReferEntries-set P k v (entry j w es) h a = elim (Bool-cases (equal k j)) [
  | inl e ↦ rw e (h, a.1)
  | inr e ↦ rw e (a.0, ReferEntries-set P k v es h a.1)
]

ReferEntries-remove :
    (P : ℕ → Type 0) (k : Bytes) (es : Entries) → ReferEntries P es → ReferEntries P (remove k es)
unfolding remove
ReferEntries-remove P k no_entries a = tt
ReferEntries-remove P k (entry j w es) a = elim (Bool-cases (equal k j)) [
  | inl e ↦ rw e (ReferEntries-remove P k es a.1)
  | inr e ↦ rw e (a.0, ReferEntries-remove P k es a.1)
]

-- What a lookup finds, where it finds something.
abbrev Found : (ℕ → Type 0) → Option Value → Type 0
Found P none = Unit
Found P (some v) = ReferIn P v

get-Found : (P : ℕ → Type 0) (k : Bytes) (es : Entries) → ReferEntries P es → Found P (get k es)
unfolding get
get-Found P k no_entries a = tt
get-Found P k (entry j w es) a = elim (Bool-cases (equal k j)) [
  | inl e ↦ rw e a.0
  | inr e ↦ rw e (get-Found P k es a.1)
]

as_array-Ends : (P : ℕ → Type 0) (o : Option Value) → Found P o → Ends (ReferAll P) (as_array o)
as_array-Ends P none h = tt
as_array-Ends P (some (array vs)) h = h
as_array-Ends P (some _) h = tt

as_uid-Ends : (P : ℕ → Type 0) (v : Value) → Refer P v → Ends P (as_uid v)
as_uid-Ends P (uid n) h = h
as_uid-Ends P _ h = tt

as_text-Ends : (v : Value) → Ends (λ _. Unit {0}) (as_text v)
as_text-Ends (text s) = tt
as_text-Ends _ = tt

-- An object refers to objects of a lower rank only.
abbrev Below : (ℕ → ℕ) → ℕ → ℕ → Type 0
Below rank k m = rank m < k

abbrev RankedFrom : (ℕ → ℕ) → ℕ → Objects → Type 0
RankedFrom rank i [] = Unit
RankedFrom rank i (v ∷ vs) = RefersTo (Below rank (rank i)) v × RankedFrom rank (suc i) vs

abbrev pub IsRanked : (ℕ → ℕ) → Objects → Type 0
IsRanked rank objs = RankedFrom rank 0 objs

abbrev FoundObject : (ℕ → Type 0) → Option Value → Type 0
FoundObject P none = Unit
FoundObject P (some v) = RefersTo P v

module _ (rank : ℕ → ℕ) where
  get_elem?-RankedFrom :
      (n i j : ℕ) (objs : Objects)
      → i + n ≡ j
      → RankedFrom rank i objs
      → FoundObject (Below rank (rank j)) (get_elem? objs n)
  unfolding get_elem?
  get_elem?-RankedFrom n i j [] e h = tt
  get_elem?-RankedFrom zero i j (v ∷ vs) e h = let e' : i ≡ j = omega arith in rw (← e') h.0
  get_elem?-RankedFrom (suc n) i j (v ∷ vs) e h =
      get_elem?-RankedFrom n (suc i) j vs (omega arith) h.1

  update-RefersTo :
      (P : ℕ → Type 0) (f : Entries → Entries) (v : Value)
      → ((es : Entries) → ReferEntries P es → ReferEntries P (f es))
      → RefersTo P v
      → RefersTo P (update f v)
  update-RefersTo P f (dict es) keep h = keep es h
  update-RefersTo P f null keep h = h
  update-RefersTo P f (text s) keep h = h
  update-RefersTo P f (number n) keep h = h
  update-RefersTo P f (blob s) keep h = h
  update-RefersTo P f (uid n) keep h = h
  update-RefersTo P f (array vs) keep h = h
  update-RefersTo P f other keep h = h

  modify-RankedFrom :
      (n i j : ℕ) (f : Entries → Entries) (objs : Objects)
      → i + n ≡ j
      → ((es : Entries)
          → ReferEntries (Below rank (rank j)) es
          → ReferEntries (Below rank (rank j)) (f es))
      → RankedFrom rank i objs
      → RankedFrom rank i (modify n f objs)
  unfolding modify
  modify-RankedFrom zero i j f [] e keep h = tt
  modify-RankedFrom (suc n) i j f [] e keep h = tt
  modify-RankedFrom zero i j f (v ∷ vs) e keep h =
      let e' : i ≡ j = omega arith in
      (rw e' (update-RefersTo (Below rank (rank j)) f v keep (rw e' at h.0)), h.1)
  modify-RankedFrom (suc n) i j f (v ∷ vs) e keep h =
      (h.0, modify-RankedFrom n (suc i) j f vs (omega arith) keep h.1)
