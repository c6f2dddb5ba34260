-- ===== src/Tapback/Laws.antt =====
-- Reactions survive being written as emojis and as removals.
use imessage_for_me.Base.{ℕ, ◌≤◌, ◌≡◌, Bool, true, false, List, [], ◌∷◌, arith, ◌⊎◌, is_some}
use imessage_for_me.Tapback.{
  love, question, action_of, Tapback, normalize, from_emoji, emoji, redacted, Parsers, ok, parse,
  parse_target,
}

-- The reactions of the code: the numbers from love to question.
abbrev pub IsReaction : ℕ → Type 0
IsReaction t = (love ≤ t) × (t ≤ question)

abbrev pub first_rune : List ℕ → ℕ
first_rune [] = 0
first_rune (r ∷ rs) = r

-- The emoji of a reaction is read back as that reaction.
pub from_emoji-emoji : (t : ℕ) → IsReaction t → from_emoji (first_rune (emoji t)) ≡ t
unfolding from_emoji emoji
from_emoji-emoji t h = ground arith

-- Every emoji is read as no reaction or as one of the six.
pub from_emoji-IsReaction : (r : ℕ) → (from_emoji r ≡ 0) ⊎ IsReaction (from_emoji r)
unfolding from_emoji
from_emoji-IsReaction r = ground arith

part_target-ok :
    (t u : Tapback) (env : Parsers)
    → parse_target env t ≡ ok u
    → (u.type ≡ t.type) × (u.remove ≡ t.remove)
unfolding parse_target
part_target-ok t u env h = ground arith

-- A reaction and its removal, as `Redacted` numbers them, are told apart by `Parse` where it
-- succeeds: the parsed reaction has the original number, and is a removal exactly when it was
-- redacted.
pub parse-redacted :
    (env : Parsers) (t u : Tapback) (reaction : ℕ) (redact : Bool)
    → IsReaction reaction
    → t.type ≡ redacted reaction redact
    → t.remove ≡ false
    → parse env t ≡ ok u
    → (u.type ≡ reaction) × (u.remove ≡ redact)
unfolding parse normalize redacted
parse-redacted env t u reaction redact h e fresh p =
    ground (arith, part_target-ok (normalize t) u env)

-- Every reaction and every removal of one, as `Redacted` numbers them, has a text in `actionMap`.
pub action_of_lem :
    (t : ℕ) (redact : Bool) → IsReaction t → is_some (action_of (redacted t redact)) ≡ true
unfolding action_of redacted
action_of_lem t redact h = ground arith
