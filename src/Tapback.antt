-- ===== src/Tapback.antt =====
-- imessage/imessage/tapback.go: reactions to messages.
pub mod Laws
use imessage_for_me.Base.{
  ℕ, ◌+◌, ◌-◌, ◌*◌, Bool, true, false, ◌&&◌, ◌||◌, List, [], ◌∷◌, ◌++◌, Option, none, some, Bytes,
  codes, ltb, leb, ◌==◌, if◌then◌else◌,
}

abbrev pub love : ℕ
love = 2000

abbrev pub like : ℕ
like = 2001

abbrev pub dislike : ℕ
dislike = 2002

abbrev pub laugh : ℕ
laugh = 2003

abbrev pub emphasis : ℕ
emphasis = 2004

abbrev pub question : ℕ
question = 2005

abbrev pub remove_offset : ℕ
remove_offset = 1000

-- What the code takes from elsewhere: `uuid.Parse` with its error ignored, and `strconv.Atoi`.
pub record Parsers : Type 0 where
  pub parse_uuid : Bytes → Bytes
  pub atoi : Bytes → Option ℕ

-- `Tapback` without the part information, which `Parse` does not use.
pub record Tapback : Type 0 where
  pub target_guid_string : Bytes
  pub target_guid : Bytes
  pub target_part : ℕ
  pub remove : Bool
  pub type : ℕ

pub data ParseError : Type 0 where
  unknown_normal_target invalid_target_part unknown_target_type : ParseError

pub data Parsed : Type 0 where
  ok : Tapback → Parsed
  err : ParseError → Parsed

-- `strings.HasPrefix` with what stands behind the prefix.
unfoldable pub strip_prefix : Bytes → Bytes → Option Bytes
strip_prefix [] s = some s
strip_prefix (p ∷ ps) [] = none
strip_prefix (p ∷ ps) (c ∷ cs) = elim (p == c) [ true ↦ strip_prefix ps cs | false ↦ none ]

-- `strings.Split` by one byte: the first part, and the parts behind it.
unfoldable pub split : ℕ → Bytes → Bytes × List Bytes
split sep [] = ([], [])
split sep (c ∷ cs) =
    let (part, parts) = split sep cs in if c == sep then ([], part ∷ parts) else (c ∷ part, parts)

-- The first `if` of `Parse`.
unfoldable pub normalize : Tapback → Tapback
normalize t =
    if leb 3000 t.type && ltb t.type 4000
    then record t { type = t.type - remove_offset; remove = true }
    else t

-- The case of a target in a part of a message.
part_target : Parsers → Tapback → Bytes × List Bytes → Parsed
part_target env t (index, guid ∷ []) = elim (env.atoi index) [
  | none ↦ err invalid_target_part
  | some n ↦ ok (record t { target_part = n; target_guid = env.parse_uuid guid })
]
part_target env t (index, _) = err unknown_normal_target

-- The rest of `Parse`.
unfoldable pub parse_target : Parsers → Tapback → Parsed
unfolding part_target
parse_target env t = elim (strip_prefix (codes "bp:") t.target_guid_string) [
  | some guid ↦ ok (record t { target_guid = env.parse_uuid guid })
  | none ↦ elim (strip_prefix (codes "p:") t.target_guid_string) [
    | some rest ↦ part_target env t (split b'/' rest)
    | none ↦ err unknown_target_type
  ]
]

unfoldable pub parse : Parsers → Tapback → Parsed
parse env t = parse_target env (normalize t)

-- `TapbackFromEmoji` by the first code point of the text.
unfoldable pub from_emoji : ℕ → ℕ
from_emoji r =
    if r == 0x2665
      || r == 0x2764
      || r == 0x1f499
      || r == 0x1f49a
      || r == 0x1f90e
      || r == 0x1f5a4
      || r == 0x1f90d
      || r == 0x1f9e1
      || r == 0x1f49b
      || r == 0x1f49c
      || r == 0x1f496
      || r == 0x2763
      || r == 0x1f495
      || r == 0x1f49f
    then love
    else if r == 0x1f44d
    then like
    else if r == 0x1f44e
    then dislike
    else if r == 0x1f602 || r == 0x1f639 || r == 0x1f606 || r == 0x1f923
    then laugh
    else if r == 0x2755 || r == 0x2757 || r == 0x203c
    then emphasis
    else if r == 0x2753 || r == 0x2754
    then question
    else 0

-- `Emoji`, as code points.
unfoldable pub emoji : ℕ → List ℕ
emoji t =
    if t == 0
    then []
    else if t == love
    then 0x2764 ∷ 0xfe0f ∷ []
    else if t == like
    then 0x1f44d ∷ 0xfe0f ∷ []
    else if t == dislike
    then 0x1f44e ∷ 0xfe0f ∷ []
    else if t == laugh
    then 0x1f602 ∷ []
    else if t == emphasis
    then 0x203c ∷ 0xfe0f ∷ []
    else if t == question
    then 0x2753 ∷ 0xfe0f ∷ []
    else 0xfffd ∷ []

-- `Redacted`.
unfoldable pub redacted : ℕ → Bool → ℕ
redacted t redact = if redact then t + remove_offset else t

-- `actionMap`.
unfoldable pub action_of : ℕ → Option Bytes
action_of t =
    if t == love
    then some (codes "Loved")
    else if t == like
    then some (codes "Liked")
    else if t == dislike
    then some (codes "Disliked")
    else if t == laugh
    then some (codes "Laughed at")
    else if t == emphasis
    then some (codes "Emphasized")
    else if t == question
    then some (codes "Questioned")
    else if t == love + remove_offset
    then some (codes "Removed a heart from")
    else if t == like + remove_offset
    then some (codes "Removed a like from")
    else if t == dislike + remove_offset
    then some (codes "Removed a dislike from")
    else if t == laugh + remove_offset
    then some (codes "Removed a laugh from")
    else if t == emphasis + remove_offset
    then some (codes "Removed an exclamation from")
    else if t == question + remove_offset
    then some (codes "Removed a question mark from")
    else none

-- `ActionString`.
unfoldable pub action_string : ℕ → Bytes → Bytes
action_string t target = elim (action_of t) [ none ↦ [] | some action ↦ action ++ b' ' ∷ target ]
