-- ===== src/Balloon/Size.antt =====
-- `parseBalloonImageSize` of balloonparse.go: the first place of a text at which its regular
-- expression matches.
pub mod Printed
use imessage_for_me.Base.{
  ℕ, ◌+◌, ◌-◌, ◌*◌, Bool, true, false, not, ◌&&◌, ◌||◌, List, [], ◌∷◌, Option, none, some, Bytes,
  codes, leb, ltb, ◌==◌, if◌then◌else◌,
}
use imessage_for_me.Uri.{is_digit}

-- Digits in front of a text, as a number with their count, and what stands behind them.
unfoldable pub read_digits : Bytes → ℕ → ℕ → ℕ × ℕ × Bytes
read_digits [] n count = (n, count, [])
read_digits (c ∷ cs) n count =
    let more = read_digits cs (n * 10 + (c - b'0')) (count + 1) in
    if is_digit c then more else (n, count, c ∷ cs)

-- `\s` of a regular expression.
abbrev is_space : ℕ → Bool
is_space c = c == 9 || c == 10 || c == 12 || c == 13 || c == 32

unfoldable pub skip_spaces : Bytes → Bytes
skip_spaces [] = []
skip_spaces (c ∷ cs) = let rest = skip_spaces cs in if is_space c then rest else c ∷ cs

unfoldable pub expect : ℕ → Bytes → Option Bytes
expect c [] = none
expect c (d ∷ ds) = if c == d then some ds else none

-- `strconv.Atoi` of digits: a number that is too large becomes the largest one.
abbrev pub max_int : ℕ
max_int = 9223372036854775807

abbrev atoi : ℕ → ℕ
atoi n = if leb n max_int then n else max_int

-- `imageSizeRe` at the front of a text, from behind the digits of its second number on.
height_end : ℕ → ℕ × ℕ × Bytes → Option (ℕ × ℕ)
height_end width (height, digits, rest) =
    if digits == 0
    then none
    else elim (expect b'}' rest) [ none ↦ none | some r ↦ some (atoi width, atoi height) ]

match_height : ℕ → Bytes → Option (ℕ × ℕ)
unfolding height_end
match_height width s = height_end width (read_digits s 0 0)

-- The same from behind the digits of its first number on.
width_end : ℕ × ℕ × Bytes → Option (ℕ × ℕ)
unfolding match_height
width_end (width, digits, rest) =
    if digits == 0
    then none
    else elim (expect b',' rest) [ none ↦ none | some r ↦ match_height width (skip_spaces r) ]

match_width : Bytes → Option (ℕ × ℕ)
unfolding width_end
match_width s = width_end (read_digits s 0 0)

unfoldable pub match_size : Bytes → Option (ℕ × ℕ)
unfolding match_width
match_size s = elim (expect b'{' s) [ none ↦ none | some r ↦ match_width r ]

-- `parseBalloonImageSize`: the first match of the text.
unfoldable pub parse_balloon_image_size : Bytes → ℕ × ℕ
parse_balloon_image_size [] = (0, 0)
parse_balloon_image_size (c ∷ cs) =
    let rest = parse_balloon_image_size cs in
    elim (match_size (c ∷ cs)) [ some size ↦ size | none ↦ rest ]
