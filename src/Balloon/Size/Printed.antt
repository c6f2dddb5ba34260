-- ===== src/Balloon/Size/Printed.antt =====
-- Printed sizes are read back by `parseBalloonImageSize`.
use imessage_for_me.Base.{
  ℕ, ◌+◌, ◌-◌, ◌*◌, ◌≤◌, ◌≡◌, refl, ap, ◌∙◌, Bool, true, false, not, [], ◌∷◌, ◌++◌, some, Bytes,
  arith, length, all, ◌==◌, and_left, and_right, is_nil,
}
use imessage_for_me.Uri.{is_digit}
use imessage_for_me.Balloon.Size.{
  read_digits, is_space, skip_spaces, expect, max_int, atoi, height_end, match_height, width_end,
  match_width, match_size, parse_balloon_image_size,
}

-- The number that digits spell, behind what was read already.
abbrev pub value_of : Bytes → ℕ → ℕ
value_of [] n = n
value_of (c ∷ cs) n = value_of cs (n * 10 + (c - b'0'))

abbrev pub starts_outside : (ℕ → Bool) → Bytes → Bool
starts_outside p [] = true
starts_outside p (c ∷ cs) = not (p c)

read_digits_lem :
    (ds rest : Bytes) (n count : ℕ)
    → all is_digit ds ≡ true
    → starts_outside is_digit rest ≡ true
    → read_digits (ds ++ rest) n count ≡ (value_of ds n, count + length ds, rest)
unfolding read_digits
read_digits_lem [] [] n count h k = ground arith
read_digits_lem [] (c ∷ rest) n count h k = ground arith
read_digits_lem (d ∷ ds) rest n count h k = rw (and_left (is_digit d) (all is_digit ds) h) (
    rw
      (read_digits_lem ds rest (n * 10 + (d - b'0')) (count + 1)
        (and_right (is_digit d) (all is_digit ds) h) k)
      (ground arith))

skip_spaces_lem :
    (spaces rest : Bytes)
    → all is_space spaces ≡ true
    → starts_outside is_space rest ≡ true
    → skip_spaces (spaces ++ rest) ≡ rest
unfolding skip_spaces
skip_spaces_lem [] [] h k = refl
skip_spaces_lem [] (c ∷ rest) h k = ground arith
skip_spaces_lem (s ∷ spaces) rest h k = ground (arith, skip_spaces_lem spaces rest)

-- A size as it is printed: digits, a comma, any spaces, digits.
abbrev pub printed : Bytes → Bytes → Bytes → Bytes → Bytes
printed width spaces height rest = b'{' ∷ (width ++ b',' ∷ (spaces ++ (height ++ b'}' ∷ rest)))

not_empty : (s : Bytes) (n : ℕ) → is_nil s ≡ false → ((n + length s) == n) ≡ false
not_empty [] n h = ground (arith, h)
not_empty (c ∷ cs) n h = ground arith

atoi_small : (n : ℕ) → n ≤ max_int → atoi n ≡ n
atoi_small n h = ground arith

digits_start :
    (s rest : Bytes)
    → all is_digit s ≡ true
    → is_nil s ≡ false
    → starts_outside is_space (s ++ rest) ≡ true
digits_start [] rest h k = ground (arith, k)
digits_start (c ∷ cs) rest h k = ground arith

match_height_lem :
    (width : ℕ) (height rest : Bytes)
    → all is_digit height ≡ true
    → is_nil height ≡ false
    → match_height width (height ++ b'}' ∷ rest) ≡ some (atoi width, atoi (value_of height 0))
unfolding match_height height_end expect
match_height_lem width height rest h k =
    ap (height_end width) (read_digits_lem height (b'}' ∷ rest) 0 0 h refl)
    ∙ rw (not_empty height 0 k) refl

match_width_lem :
    (width spaces height rest : Bytes)
    → all is_digit width ≡ true
    → is_nil width ≡ false
    → all is_space spaces ≡ true
    → all is_digit height ≡ true
    → is_nil height ≡ false
    → match_width (width ++ b',' ∷ (spaces ++ (height ++ b'}' ∷ rest)))
      ≡ some (atoi (value_of width 0), atoi (value_of height 0))
unfolding match_width width_end expect
match_width_lem width spaces height rest w w' s h h' =
    ap width_end (read_digits_lem width (b',' ∷ (spaces ++ (height ++ b'}' ∷ rest))) 0 0 w refl)
    ∙ rw (not_empty width 0 w') (
        ap (match_height (value_of width 0)) (
          skip_spaces_lem spaces (height ++ b'}' ∷ rest) s (digits_start height (b'}' ∷ rest) h h'))
        ∙ match_height_lem (value_of width 0) height rest h h')

-- `parseBalloonImageSize` reads the two numbers of a size `{w, h}` in front of any text back, with
-- any spaces behind the comma, if they fit in an `int`.
pub parse_balloon_image_size-printed :
    (width spaces height rest : Bytes)
    → all is_digit width ≡ true
    → is_nil width ≡ false
    → all is_space spaces ≡ true
    → all is_digit height ≡ true
    → is_nil height ≡ false
    → value_of width 0 ≤ max_int
    → value_of height 0 ≤ max_int
    → parse_balloon_image_size (printed width spaces height rest)
      ≡ (value_of width 0, value_of height 0)
unfolding parse_balloon_image_size match_size expect
parse_balloon_image_size-printed width spaces height rest w w' s h h' a b =
    rw (match_width_lem width spaces height rest w w' s h h', parse_balloon_image_size)
      (rw (atoi_small (value_of width 0) a, atoi_small (value_of height 0) b) refl)
