-- ===== src/Split/Cover.antt =====
-- `splitDTL` ends, its commands reach every destination, and each fits or holds one destination.
use imessage_for_me.Base.{
  ℕ, zero, suc, ◌+◌, ◌-◌, ◌*◌, ◌≤◌, ◌<◌, ◌≡◌, ◌⊎◌, false, List, [], ◌∷◌, ◌++◌, some, ltb, arith,
  Bool-cases, Option-cases, inl, inr, All, All-concat,
}
use imessage_for_me.Split.{
  Chunk, Encoder, Outcome, commands, marshal_error, out_of_fuel, overhead, initial_size, chunk_at,
  too_big, split_loop, split_dtl,
}

-- A command of the list is for destination `k`.
abbrev pub Reaches : List Chunk → ℕ → Type 0
Reaches [] k = ⊥
Reaches (c ∷ cs) k = ((c.first ≤ k) × (k < c.last)) ⊎ Reaches cs k

Reaches-left : (cs : List Chunk) (c : Chunk) (k : ℕ) → Reaches cs k → Reaches (cs ++ c ∷ []) k
Reaches-left [] c k r = absurd r
Reaches-left (d ∷ cs) c k (inl r) = inl r
Reaches-left (d ∷ cs) c k (inr r) = inr (Reaches-left cs c k r)

Reaches-right :
    (cs : List Chunk) (c : Chunk) (k : ℕ) → c.first ≤ k → k < c.last → Reaches (cs ++ c ∷ []) k
Reaches-right [] c k lo hi = inl (lo, hi)
Reaches-right (d ∷ cs) c k lo hi = inr (Reaches-right cs c k lo hi)

-- A command that fits the limit, or is for one destination at most.
abbrev pub Fits : Encoder → ℕ → Chunk → Type 0
Fits encode max_size c =
    (c.last ≤ c.first + 1)
    ⊎ ((i : ℕ) × (bytes : ℕ) × (encode i c ≡ some bytes) × (bytes + overhead ≤ max_size))

-- What a run that was not given up must satisfy.
abbrev pub Good : Encoder → ℕ → ℕ → Outcome → Type 0
Good encode max_size n (commands cs) =
    ((k : ℕ) → k < n → Reaches cs k)
    × All (λ c. (c.first < c.last) × (c.last ≤ n) × Fits encode max_size c) cs
Good encode max_size n marshal_error = Unit
Good encode max_size n out_of_fuel = ⊥

chunk_at_bounds :
    (n size i : ℕ)
    → 0 < size
    → i * size < n
    → ((chunk_at n size i).first < (chunk_at n size i).last) × ((chunk_at n size i).last ≤ n)
unfolding chunk_at
chunk_at_bounds n size i pos more = ground arith

chunk_at_single : (n i : ℕ) → (chunk_at n 1 i).last ≤ (chunk_at n 1 i).first + 1
unfolding chunk_at
chunk_at_single n i = ground arith

-- What the chunk reaches: all from its first destination to the end of its range, in the list.
chunk_at_reach :
    (n size i k : ℕ)
    → i * size ≤ k
    → k < (i + 1) * size
    → k < n
    → ((chunk_at n size i).first ≤ k) × (k < (chunk_at n size i).last)
unfolding chunk_at
chunk_at_reach n size i k lo hi lt = ground arith

index_below : (n size i : ℕ) → 0 < size → i * size < n → i < n
index_below n size i pos more = grind arith

mul_pred : (i size : ℕ) → i * (size - 1) ≤ i * size
mul_pred i zero = omega arith
mul_pred i (suc size) = let e : suc size - 1 ≡ size = omega arith in rw e (omega arith)

module _ (encode : Encoder) (max_size n : ℕ) where
  abbrev IsFine : Chunk → Type 0
  IsFine c = (c.first < c.last) × (c.last ≤ n) × Fits encode max_size c

  chunk_at-Fits :
      (size i bytes : ℕ)
      → 0 < size
      → encode (i + 1) (chunk_at n size i) ≡ some bytes
      → too_big max_size size bytes ≡ false
      → Fits encode max_size (chunk_at n size i)
  chunk_at-Fits size i bytes pos e small = elim (Bool-cases (ltb 1 size)) [
    | inl many ↦ inr (i + 1, bytes, e, ground arith)
    | inr one ↦ let single : size ≡ 1 = ground arith in inl (rw single (chunk_at_single n i))
  ]

  seen_next :
      (size i k : ℕ) (out : List Chunk)
      → ((k : ℕ) → k < i * size → k < n → Reaches out k)
      → k < (i + 1) * size
      → k < n
      → Reaches (out ++ chunk_at n size i ∷ []) k
  seen_next size i k out seen hi lt = elim (Bool-cases (ltb k (i * size))) [
    | inl old ↦ Reaches-left out _ k (seen k (ground arith) lt)
    | inr new ↦
        let (a, b) = chunk_at_reach n size i k (ground arith) hi lt in Reaches-right out _ k a b
  ]

  split_loop-Good :
      (fuel size i : ℕ) (out : List Chunk)
      → 0 < size
      → size + n < fuel + i
      → i ≤ n
      → ((k : ℕ) → k < i * size → k < n → Reaches out k)
      → All IsFine out
      → Good encode max_size n (split_loop encode max_size n fuel size i out)
  unfolding split_loop
  split_loop-Good zero size i out pos f in_range seen fine = absurd (omega arith)
  split_loop-Good (suc fuel) size i out pos f in_range seen fine =
      elim (Bool-cases (ltb (i * size) n)) [
        | inr stop ↦ rw stop ((λ k lt. seen k (ground arith) lt), fine)
        | inl go ↦
            let more : i * size < n = ground arith in
            rw go (elim (Option-cases (encode (i + 1) (chunk_at n size i))) [
              | inl e ↦ rw (e, split_loop) tt
              | inr (bytes, e) ↦
                  rw (e, split_loop)
                    (elim (Bool-cases (too_big max_size size bytes)) [
                      | inl big ↦ rw big (
                          split_loop-Good fuel (size - 1) i out (ground arith) (ground arith)
                            in_range (λ k lt. seen k (omega (arith, mul_pred i size))) fine)
                      | inr small ↦
                          let (a, b) = chunk_at_bounds n size i pos more in
                          rw small (
                            split_loop-Good fuel size (i + 1) (out ++ chunk_at n size i ∷ []) pos
                              (omega arith) (omega (arith, index_below n size i pos more))
                              (λ k. seen_next size i k out seen)
                              (All-concat IsFine out _ fine
                                (a, b, chunk_at-Fits size i bytes pos e small)))
                    ])
            ])
      ]

initial_size_bounds :
    (max_size approx : ℕ) → (0 < initial_size max_size approx) × (initial_size max_size approx ≤ 20)
unfolding initial_size
initial_size_bounds max_size approx = ground arith

-- `splitDTL` ends for every encoder and every number of destinations. If it gives commands, each
-- destination is in one of them at least; every command is for a range of destinations that is not
-- empty, and it fits the limit with its overhead or is for a single destination.
pub split_dtl-Good :
    (encode : Encoder) (max_size approx n : ℕ)
    → Good encode max_size n (split_dtl encode max_size approx n)
unfolding split_dtl
split_dtl-Good encode max_size approx n =
    let (pos, small) = initial_size_bounds max_size approx in
    split_loop-Good encode max_size n (n + 21) (initial_size max_size approx) 0 [] pos (omega arith)
      (omega arith) (λ k lt. absurd (omega arith)) tt
