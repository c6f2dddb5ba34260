-- ===== src/Receive/Text/Units.antt =====
-- Bounds of `TextLen`, and texts of which each byte is a rune.
use imessage_for_me.Base.{
  ℕ, zero, suc, ◌+◌, ◌-◌, ◌≤◌, ◌≡◌, refl, true, [], ◌∷◌, ◌++◌, Bytes, arith, length, all, ltb,
}
use imessage_for_me.Receive.Text.{width, units, text_len}

width_bounds : (b : ℕ) (bs : Bytes) → (1 ≤ width (b ∷ bs)) × (width (b ∷ bs) ≤ suc (length bs))
unfolding width
width_bounds a [] = (omega arith, omega arith)
width_bounds a (b ∷ []) = ground arith
width_bounds a (b ∷ c ∷ []) = ground arith
width_bounds a (b ∷ c ∷ d ∷ rest) = ground arith

units-le : (s : Bytes) (skip : ℕ) → units skip s ≤ length s - skip
unfolding units
units-le [] zero = omega arith
units-le [] (suc skip) = omega arith
units-le (b ∷ bs) (suc skip) = omega (arith, units-le bs skip)
units-le (b ∷ bs) zero = ground (arith, width_bounds b bs, units-le bs (width (b ∷ bs) - 1))

-- A text has no more UTF-16 units than bytes.
pub text_len-le-length : (s : Bytes) → text_len s ≤ length s
unfolding text_len
text_len-le-length s = omega (arith, units-le s 0)

width_ascii : (b : ℕ) (bs : Bytes) → ltb b 0x80 ≡ true → width (b ∷ bs) ≡ 1
unfolding width
width_ascii a [] h = refl
width_ascii a (b ∷ []) h = ground arith
width_ascii a (b ∷ c ∷ []) h = ground arith
width_ascii a (b ∷ c ∷ d ∷ rest) h = ground arith

-- The rest of a text behind its ASCII start is measured as it stands there.
pub text_len-append :
    (s rest : Bytes)
    → all (λ b. ltb b 0x80) s ≡ true
    → text_len (s ++ rest) ≡ length s + text_len rest
unfolding text_len units
text_len-append [] rest h = omega arith
text_len-append (b ∷ bs) rest h =
    ground (arith, width_ascii b (bs ++ rest), text_len-append bs rest)
