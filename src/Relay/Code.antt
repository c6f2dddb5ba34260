-- ===== src/Relay/Code.antt =====
-- registration-relay/internal/util/codes.go: the codes of providers. The random numbers are given.
use imessage_for_me.Base.{
  ℕ, zero, suc, ◌≤◌, ◌≡◌, refl, ◌∙◌, List, [], ◌∷◌, ◌++◌, map, Bytes, codes, length, take, drop,
  length-append, length-drop, length-take_le, arith,
}

abbrev pub code_letters : Bytes
code_letters = codes "23456789ABCDEFGHJKLMNPQRSTUVWXYZ"

-- `codeLetters[i]` for an index in its range.
unfoldable pub letter : Bytes → ℕ → ℕ
letter [] i = 0
letter (c ∷ cs) zero = c
letter (c ∷ cs) (suc i) = letter cs i

-- Sixteen letters in four groups.
unfoldable pub grouped : Bytes → Bytes
grouped bytes =
    take 4 bytes
    ++ b'-'
      ∷ (take 4 (drop 4 bytes) ++ b'-' ∷ (take 4 (drop 8 bytes) ++ b'-' ∷ take 4 (drop 12 bytes)))

-- `GenerateProviderCode` from the random indices of its sixteen letters.
unfoldable pub generate_provider_code : List ℕ → Bytes
generate_provider_code numbers = grouped (map (letter code_letters) numbers)

length-map : (f : ℕ → ℕ) (xs : List ℕ) → length (map f xs) ≡ length xs
length-map f [] = refl
length-map f (x ∷ xs) = omega (arith, length-map f xs)

-- Four of sixteen bytes.
length-part : (n : ℕ) (xs : Bytes) → length xs ≡ 16 → n ≤ 12 → length (take 4 (drop n xs)) ≡ 4
length-part n xs h lt = length-take_le 4 (drop n xs) (omega (arith, length-drop n xs))

length-grouped : (xs : Bytes) → length xs ≡ 16 → length (grouped xs) ≡ 19
unfolding grouped
length-grouped xs h =
    let b : Bytes = take 4 (drop 4 xs) in
    let c : Bytes = take 4 (drop 8 xs) in
    let d : Bytes = take 4 (drop 12 xs) in
    omega (
      arith,
      length-append (take 4 xs) (b'-' ∷ (b ++ b'-' ∷ (c ++ b'-' ∷ d))),
      length-append b (b'-' ∷ (c ++ b'-' ∷ d)),
      length-append c (b'-' ∷ d),
      length-part 0 xs h (omega arith),
      length-part 4 xs h (omega arith),
      length-part 8 xs h (omega arith),
      length-part 12 xs h (omega arith),
    )

-- A code that is made of 16 random numbers has the length that `RegisterProvider` wants.
pub length-generate_provider_code :
    (numbers : List ℕ) → length numbers ≡ 16 → length (generate_provider_code numbers) ≡ 19
unfolding generate_provider_code
length-generate_provider_code numbers h =
    length-grouped _ (length-map (letter code_letters) numbers ∙ h)
