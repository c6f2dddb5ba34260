-- ===== src/Split.antt =====
-- `splitDTL` of imessage/imessage/direct/connector.go: cutting the list of destinations of a message
-- into commands that fit. The encoded size of a command is a parameter: the property list library
-- that encodes it is not part of this repository, and it may fail.
pub mod Cover
use imessage_for_me.Base.{
  ℕ, zero, suc, ◌+◌, ◌-◌, ◌*◌, ◌/◌, ◌≤◌, ◌<◌, Bool, true, false, ◌&&◌, List, [], ◌∷◌, ◌++◌, Option,
  none, some, ltb, if◌then◌else◌,
}

-- One command: it is for the destinations from `first` up to `last`, not included.
pub record Chunk : Type 0 where
  pub first : ℕ
  pub last : ℕ

-- What the encoding of a chunk with a chunk number gives: its number of bytes, or an error.
abbrev pub Encoder : Type 0
Encoder = ℕ → Chunk → Option ℕ

pub data Outcome : Type 0 where
  commands : List Chunk → Outcome
  marshal_error : Outcome
  out_of_fuel : Outcome

-- `apnsSendMessageOverhead`.
abbrev pub overhead : ℕ
overhead = 32 + 20 + 4 + 5 + 4 * 3

-- The chunk size before the loop. The division is by the approximate size of a message, which the
-- caller makes positive.
unfoldable pub initial_size : ℕ → ℕ → ℕ
initial_size max_size approx =
    let size = max_size / approx in if ltb 20 size then 20 else if ltb size 1 then 1 else size

-- The slice `dtl[chunk*chunkSize : end]`, with `end` cut to the length.
unfoldable pub chunk_at : ℕ → ℕ → ℕ → Chunk
chunk_at n size i =
    let end = (i + 1) * size in record { first = i * size; last = if ltb n end then n else end }

abbrev pub too_big : ℕ → ℕ → ℕ → Bool
too_big max_size size bytes = ltb 1 size && ltb max_size (bytes + overhead)

-- The loop: `i` is `chunk`, and a chunk that is too big is tried again with a smaller chunk size
-- under the same number. `n` is the number of destinations.
unfoldable pub split_loop : Encoder → ℕ → ℕ → ℕ → ℕ → ℕ → List Chunk → Outcome
split_loop encode max_size n zero size i out = out_of_fuel
split_loop encode max_size n (suc fuel) size i out =
    let c = chunk_at n size i in
    let smaller = split_loop encode max_size n fuel (size - 1) i out in
    let next = split_loop encode max_size n fuel size (i + 1) (out ++ c ∷ []) in
    if ltb (i * size) n
    then elim (encode (i + 1) c) [
      | none ↦ marshal_error
      | some bytes ↦ if too_big max_size size bytes then smaller else next
    ]
    else commands out

-- A round takes one off the chunk size or adds one to the chunk number.
unfoldable pub split_dtl : Encoder → ℕ → ℕ → ℕ → Outcome
split_dtl encode max_size approx n =
    split_loop encode max_size n (n + 21) (initial_size max_size approx) 0 []
