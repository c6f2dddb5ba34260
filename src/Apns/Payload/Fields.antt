-- ===== src/Apns/Payload/Fields.antt =====
-- The field loop of `unmarshalFieldsFromBytes`: it ends, and it reads back what `ToBytes` writes.
use mathlib.Core.List.{append_assoc, append-nil}
use imessage_for_me.Base.{
  ℕ, zero, suc, ◌/◌, ◌%◌, ◌^◌, ◌<◌, ◌≡◌, refl, ◌∙◌, false, List, [], ◌∷◌, ◌++◌, Option, none, some,
  arith, Bytes, ltb, length, drop, length-append, length-drop, take-append_length,
  drop-append_length, All, inl, inr, Bool-cases,
}
use imessage_for_me.Apns.Word.{uint16, uint16-be16}
use imessage_for_me.Apns.Payload.{
  Field, Payload, Error, invalid_field_length, returned, fields_bytes, fields_length, fields_loop,
}

-- The loop returns whenever its fuel exceeds the bytes: it never runs out, and it does not fault.
pub fields_loop_total :
    (fuel : ℕ) (rest : Bytes) (p : Payload)
    → length rest < fuel
    → (out : Payload × Option Error) × (fields_loop fuel rest p ≡ returned out)
unfolding fields_loop
fields_loop_total zero rest p h = absurd (omega arith)
fields_loop_total (suc fuel) [] p h = ((p, none), refl)
fields_loop_total (suc fuel) (a ∷ []) p h = ((p, none), refl)
fields_loop_total (suc fuel) (a ∷ b ∷ []) p h = ((p, none), refl)
fields_loop_total (suc fuel) (a ∷ hi ∷ lo ∷ rest) p h =
    elim (Bool-cases (ltb (length rest) (uint16 hi lo))) [
      | inl short ↦ ((p, some invalid_field_length), rw short)
      | inr full ↦ rw full (
          fields_loop_total fuel (drop (uint16 hi lo) rest) _
            (omega (arith, length-drop (uint16 hi lo) rest)))
    ]

-- A field that fits its 16-bit length.
abbrev pub Fits : Field → Type 0
Fits f = length f.value < 2 ^ 16

-- More fuel changes nothing, and the loop reads the fields that were written, in order.
pub fields_loop-fields_bytes :
    (fs : List Field) (fuel : ℕ) (p : Payload)
    → All Fits fs
    → length (fields_bytes fs) < fuel
    → fields_loop fuel (fields_bytes fs) p ≡ returned (record p { fields = p.fields ++ fs }, none)
unfolding fields_loop fields_bytes
fields_loop-fields_bytes [] zero p fits h = absurd (omega arith)
fields_loop-fields_bytes [] (suc fuel) p fits h = rw append-nil
fields_loop-fields_bytes (f ∷ fs) zero p fits h = absurd (omega arith)
fields_loop-fields_bytes (f ∷ fs) (suc fuel) p fits h =
    let n : uint16 (length f.value / 256 % 256) (length f.value % 256) ≡ length f.value =
      omega (arith, uint16-be16 (length f.value), fits.0) in
    let room : ltb (length (f.value ++ fields_bytes fs)) (length f.value) ≡ false =
      ground (arith, length-append f.value (fields_bytes fs)) in
    rw (n, room, take-append_length, drop-append_length)
      (fields_loop-fields_bytes fs fuel _ fits.1
          (omega (arith, length-append f.value (fields_bytes fs)))
        ∙ rw append_assoc)

pub length-fields_bytes : (fs : List Field) → length (fields_bytes fs) ≡ fields_length fs
unfolding fields_bytes fields_length
length-fields_bytes [] = refl
length-fields_bytes (f ∷ fs) =
    omega (arith, length-append f.value (fields_bytes fs), length-fields_bytes fs)
