-- ===== src/Base/Int.antt =====
-- Go's `int` and `int64`.
use Prim.Native.Nat.{ℕ, ◌-◌, ◌^◌}
use mathlib.Core.Bool.{Bool, true}
use imessage_for_me.Base.Tests.{ltb, if◌then◌else◌}

-- An integer, as far as no sum overflows.
pub data ℤ : Type 0 where
  pos : ℕ → ℤ
  negsuc : ℕ → ℤ

-- The integer with the 64 bits of a number below 2^64, as of a conversion from `uint64`.
unfoldable pub signed : ℕ → ℤ
signed w = if ltb w (2 ^ 63) then pos w else negsuc (2 ^ 64 - 1 - w)

-- The comparison with a length.
abbrev pub is_below : ℤ → ℕ → Bool
is_below (pos n) m = ltb n m
is_below (negsuc n) m = true
