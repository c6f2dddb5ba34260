-- ===== src/Base/Assoc.antt =====
-- Go maps as association lists: reading, writing and deleting by key. A write keeps the position
-- of a key that is present and appends a new one; a delete removes every entry with the key. The
-- keys are compared by a test that decides equality.
use imessage_for_me.Base.Tests.{if◌then◌else◌, Bool-cases, ◌==◌, ==_iff}
use imessage_for_me.Base.Text.{Bytes, equal, equal_iff}
use Prim.Native.Nat.{ℕ}
use native.Mathlib.Omega.{arith}
use mathlib.Core.Path.{◌≡◌, refl}
use mathlib.Core.Logic.{◌↔◌, inl, inr}
use mathlib.Core.Bool.{Bool, true, false}
use mathlib.Core.List.{List, [], ◌∷◌}
use mathlib.Core.Option.{Option, none, some}

-- A key type with a Boolean equality test.
pub record Key {ℓ} (K : Type ℓ) : Type ℓ where
  pub same : K → K → Bool
  pub same_iff : (a b : K) → (same a b ≡ true) ↔ (a ≡ b)

pub same_refl {ℓ} : {K : Type ℓ} (k : Key K) (a : K) → k.same a a ≡ true
same_refl k a = (k.same_iff a a).1 refl

pub same_sym {ℓ} : {K : Type ℓ} (k : Key K) (a b : K) → k.same a b ≡ k.same b a
same_sym k a b = ground (arith, k.same_iff a b, k.same_iff b a)

-- The keys that are strings or numbers.
instance abbrev pub bytes_key : Key Bytes
bytes_key = record { same = equal; same_iff = equal_iff }

instance abbrev pub number_key : Key ℕ
number_key = record { same = ◌==◌; same_iff = ==_iff }

module _ {ℓ κ} {K : Type ℓ} {V : Type κ} ⦃k : Key K⦄ where
  unfoldable pub find : K → List (K × V) → Option V
  find a [] = none
  find a ((b, v) ∷ m) = if k.same b a then some v else find a m

  unfoldable pub put : K → V → List (K × V) → List (K × V)
  put a v [] = (a, v) ∷ []
  put a v ((b, w) ∷ m) = if k.same b a then (a, v) ∷ m else (b, w) ∷ put a v m

  unfoldable pub delete : K → List (K × V) → List (K × V)
  delete a [] = []
  delete a ((b, w) ∷ m) = if k.same b a then delete a m else (b, w) ∷ delete a m

  pub find-put_self : (a : K) (v : V) (m : List (K × V)) → find a (put a v m) ≡ some v
  unfolding find put
  find-put_self a v [] = rw (same_refl k a)
  find-put_self a v ((b, w) ∷ m) = elim (Bool-cases (k.same b a)) [
    | inl e ↦ rw e (rw (same_refl k a))
    | inr e ↦ rw e (rw e (find-put_self a v m))
  ]

  pub find-put_ne :
      (a c : K) (v : V) (m : List (K × V)) → k.same a c ≡ false → find c (put a v m) ≡ find c m
  unfolding find put
  find-put_ne a c v [] h = rw h
  find-put_ne a c v ((b, w) ∷ m) h = elim (Bool-cases (k.same b a)) [
    | inl e ↦ rw ((k.same_iff b a).0 e, same_refl k a) (rw h)
    | inr e ↦ rw e (rw (find-put_ne a c v m h))
  ]

  pub find-delete_self : (a : K) (m : List (K × V)) → find a (delete a m) ≡ none
  unfolding find delete
  find-delete_self a [] = refl
  find-delete_self a ((b, w) ∷ m) = elim (Bool-cases (k.same b a)) [
    | inl e ↦ rw e (find-delete_self a m)
    | inr e ↦ rw e (rw e (find-delete_self a m))
  ]

  pub find-delete_ne :
      (a c : K) (m : List (K × V)) → k.same a c ≡ false → find c (delete a m) ≡ find c m
  unfolding find delete
  find-delete_ne a c [] h = refl
  find-delete_ne a c ((b, w) ∷ m) h = elim (Bool-cases (k.same b a)) [
    | inl e ↦ rw ((k.same_iff b a).0 e, same_refl k a) (rw h (find-delete_ne a c m h))
    | inr e ↦ rw e (rw (find-delete_ne a c m h))
  ]

  pub find-put :
      (a c : K) (v : V) (m : List (K × V))
      → find c (put a v m) ≡ (if k.same a c then some v else find c m)
  find-put a c v m = elim (Bool-cases (k.same a c)) [
    | inl e ↦ rw ((k.same_iff a c).0 e, same_refl k c, find-put_self c v m) refl
    | inr e ↦ rw e (find-put_ne a c v m e)
  ]

  pub find-delete :
      (a c : K) (m : List (K × V)) → find c (delete a m) ≡ (if k.same a c then none else find c m)
  find-delete a c m = elim (Bool-cases (k.same a c)) [
    | inl e ↦ rw ((k.same_iff a c).0 e, same_refl k c, find-delete_self c m) refl
    | inr e ↦ rw e (find-delete_ne a c m e)
  ]
