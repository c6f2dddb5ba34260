-- ===== src/Apns/Word.antt =====
-- The big-endian words of encoding/binary, as the APNs code uses them.
use imessage_for_me.Base.{ℕ, ◌+◌, ◌*◌, ◌/◌, ◌%◌, ◌^◌, ◌<◌, ◌≡◌, [], ◌∷◌, ◌++◌, arith, Bytes}

abbrev pub IsByte : ℕ → Type 0
IsByte b = b < 256

-- `binary.BigEndian.PutUint16(b, v)` for the `uint16(v)` of an int.
abbrev pub be16 : ℕ → Bytes
be16 v = (v / 256 % 256) ∷ (v % 256) ∷ []

-- `binary.BigEndian.PutUint32(b, v)` for the `uint32(v)` of an int.
abbrev pub be32 : ℕ → Bytes
be32 v = (v / 2 ^ 24 % 256) ∷ (v / 2 ^ 16 % 256) ∷ (v / 2 ^ 8 % 256) ∷ (v % 256) ∷ []

-- `binary.BigEndian.PutUint64(b, v)`.
abbrev pub be64 : ℕ → Bytes
be64 v = be32 (v / 2 ^ 32) ++ be32 v

-- `binary.BigEndian.Uint16` and `Uint32` of two and four bytes.
abbrev pub uint16 : ℕ → ℕ → ℕ
uint16 a b = a * 2 ^ 8 + b

abbrev pub uint32 : ℕ → ℕ → ℕ → ℕ → ℕ
uint32 a b c d = a * 2 ^ 24 + b * 2 ^ 16 + c * 2 ^ 8 + d

pub uint16-be16 : (v : ℕ) → uint16 (v / 256 % 256) (v % 256) ≡ v % 2 ^ 16
uint16-be16 v = omega arith

pub uint32-be32 :
    (v : ℕ) → uint32 (v / 2 ^ 24 % 256) (v / 2 ^ 16 % 256) (v / 2 ^ 8 % 256) (v % 256) ≡ v % 2 ^ 32
uint32-be32 v = omega arith
