-- ===== src/Receive/Text.antt =====
-- Texts as decrypt.go measures and reads them: `TextLen` of imessage.go, and what it calls of Go's
-- standard library. A text is its bytes in UTF-8.
pub mod Units
use imessage_for_me.Base.{
  ℕ, zero, suc, ◌+◌, ◌-◌, ◌*◌, Bool, true, false, ◌&&◌, ◌||◌, List, [], ◌∷◌, ◌++◌, Option, none,
  some, Bytes, leb, ◌==◌, if◌then◌else◌, length, take,
}

abbrev within : ℕ → ℕ → ℕ → Bool
within lo hi b = leb lo b && leb b hi

-- The least and the greatest second byte behind a first one.
abbrev second_low : ℕ → ℕ
second_low b = if b == 0xe0 then 0xa0 else if b == 0xf0 then 0x90 else 0x80

abbrev second_high : ℕ → ℕ
second_high b = if b == 0xed then 0x9f else if b == 0xf4 then 0x8f else 0xbf

-- How many bytes the first rune of a text has; a byte that starts no rune is one of its own.
unfoldable pub width : Bytes → ℕ
width (a ∷ b ∷ c ∷ d ∷ rest) =
    if within 0xc2 0xdf a && within 0x80 0xbf b
    then 2
    else if within 0xe0 0xef a && within (second_low a) (second_high a) b && within 0x80 0xbf c
    then 3
    else if within 0xf0 0xf4 a
        && within (second_low a) (second_high a) b
        && within 0x80 0xbf c
        && within 0x80 0xbf d
    then 4
    else 1
width (a ∷ b ∷ c ∷ []) =
    if within 0xc2 0xdf a && within 0x80 0xbf b
    then 2
    else if within 0xe0 0xef a && within (second_low a) (second_high a) b && within 0x80 0xbf c
    then 3
    else 1
width (a ∷ b ∷ []) = if within 0xc2 0xdf a && within 0x80 0xbf b then 2 else 1
width _ = 1

-- The UTF-16 units of the runes behind `skip` bytes; a rune of four bytes is a pair of surrogates.
unfoldable pub units : ℕ → Bytes → ℕ
units skip [] = 0
units (suc skip) (b ∷ bs) = units skip bs
units zero (b ∷ bs) = (if width (b ∷ bs) == 4 then 2 else 1) + units (width (b ∷ bs) - 1) bs

-- `TextLen`.
unfoldable pub text_len : Bytes → ℕ
unfolding units width
text_len s = units 0 s

-- `strings.TrimLeft(s, "\uFFFC")`.
unfoldable pub trim_objects : Bytes → Bytes
trim_objects (a ∷ b ∷ c ∷ rest) =
    let trimmed = trim_objects rest in
    if a == 0xef && b == 0xbf && c == 0xbc then trimmed else a ∷ b ∷ c ∷ rest
trim_objects s = s

abbrev digit : ℕ → Option ℕ
digit c =
    if within b'0' b'9' c
    then some (c - b'0')
    else if within b'a' b'f' c
    then some (c - b'a' + 10)
    else if within b'A' b'F' c
    then some (c - b'A' + 10)
    else none

abbrev join : Option ℕ → Option ℕ → Option Bytes → Option Bytes
join (some a) (some b) (some bytes) = some ((a * 16 + b) ∷ bytes)
join a b bytes = none

-- `hex.DecodeString`, with nothing where it returns an error.
unfoldable pub decode_hex : Bytes → Option Bytes
decode_hex [] = some []
decode_hex (a ∷ b ∷ rest) = join (digit a) (digit b) (decode_hex rest)
decode_hex (a ∷ []) = none

-- The bytes that stand before the first error of `hex.DecodeString`, which it returns with the error.
unfoldable pub decoded_hex : Bytes → Bytes
decoded_hex (a ∷ b ∷ rest) = elim (join (digit a) (digit b) (some (decoded_hex rest))) [
  | none ↦ []
  | some bytes ↦ bytes
]
decoded_hex s = []

abbrev fill : ℕ → Bytes → Bytes
fill zero s = []
fill (suc n) [] = 0 ∷ fill n []
fill (suc n) (b ∷ bs) = b ∷ fill n bs

-- `copy(id[:], bytes)` into an array of 16 zeroes.
unfoldable pub copied_uuid : Bytes → Bytes
copied_uuid s = fill 16 s
