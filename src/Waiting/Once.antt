-- ===== src/Waiting/Once.antt =====
-- A waiting channel has room, and each channel gets one value at most, one with its key.
use imessage_for_me.Base.{
  ℕ, ◌<◌, ◌≡◌, ◌≢◌, refl, sym, ◌∙◌, true, false, List, [], ◌∷◌, Option, none, some, All, arith,
  if_elim, Bool-cases, some_inj, All-weaken, All-both, inl, inr,
}
use imessage_for_me.Base.Assoc.{Key, find, put, delete, find-put_self, find-put_ne, find-delete_ne}
use imessage_for_me.Waiting.{
  Channel, Waiting, Call, waits, cancels, receives, no_waiters, new_channel, wait, cancel, send_to,
  receive, step, run,
}

module _ {K : Type 0} {M : Type 0} ⦃k : Key K⦄ (key_of : M → K) where
  -- The number is not that of a channel with a value.
  abbrev IsUnsent : ℕ → List (Channel K × M) → Type 0
  IsUnsent n = All (λ e. e.0.number ≢ n)

  abbrev Waits : Waiting K M → K × Channel K → Type 0
  Waits s e = (e.1.made_for ≡ e.0) × (e.1.number < s.made) × IsUnsent e.1.number s.sent

  -- No channel has two values.
  abbrev pub HasOneEach : List (Channel K × M) → Type 0
  HasOneEach [] = Unit
  HasOneEach (e ∷ es) = IsUnsent e.0.number es × HasOneEach es

  abbrev Answers : Channel K × M → Type 0
  Answers e = key_of e.1 ≡ e.0.made_for

  -- Two waiters have two channels.
  abbrev HasNumber : ℕ → K × Channel K → Type 0
  HasNumber n e = e.1.number ≢ n

  abbrev AreApart : List (K × Channel K) → Type 0
  AreApart [] = Unit
  AreApart (e ∷ es) = All (HasNumber e.1.number) es × AreApart es

  abbrev pub Inv : Waiting K M → Type 0
  Inv s =
      All (Waits s) s.waiters
      × AreApart s.waiters
      × HasOneEach s.sent
      × All Answers s.sent
      × All (λ e. e.0.number < s.made) s.sent

  module _ (P : K × Channel K → Type 0) where
    All-put :
        (key : K) (ch : Channel K) (ws : List (K × Channel K))
        → P (key, ch)
        → All P ws
        → All P (put key ch ws)
    unfolding put
    All-put key ch [] p h = (p, tt)
    All-put key ch ((j, c) ∷ ws) p h =
        if_elim (All P) (k.same j key) (λ e. (p, h.1)) (λ e. (h.0, All-put key ch ws p h.1))

    All-delete : (key : K) (ws : List (K × Channel K)) → All P ws → All P (delete key ws)
    unfolding delete
    All-delete key [] h = tt
    All-delete key ((j, c) ∷ ws) h =
        if_elim (All P) (k.same j key) (λ e. All-delete key ws h.1)
          (λ e. (h.0, All-delete key ws h.1))

  All-find :
      (P : K × Channel K → Type 0) (key : K) (ch : Channel K) (ws : List (K × Channel K))
      → find key ws ≡ some ch
      → All P ws
      → P (key, ch)
  unfolding find
  All-find P key ch [] e h = absurd (ground (arith, e))
  All-find P key ch ((j, c) ∷ ws) e h = elim (Bool-cases (k.same j key)) [
    | inl s ↦ rw (← (some_inj (rw s at e)), ← ((k.same_iff j key).0 s)) h.0
    | inr d ↦ All-find P key ch ws (rw d at e) h.1
  ]

  AreApart-put :
      (key : K) (ch : Channel K) (ws : List (K × Channel K))
      → All (HasNumber ch.number) ws
      → AreApart ws
      → AreApart (put key ch ws)
  unfolding put
  AreApart-put key ch [] n a = (tt, tt)
  AreApart-put key ch ((j, c) ∷ ws) n a =
      if_elim AreApart (k.same j key) (λ e. (n.1, a.1))
        (λ e. (
          All-put (HasNumber c.number) key ch ws (λ eq. n.0 (sym eq)) a.0,
          AreApart-put key ch ws n.1 a.1,
        ))

  AreApart-delete : (key : K) (ws : List (K × Channel K)) → AreApart ws → AreApart (delete key ws)
  unfolding delete
  AreApart-delete key [] a = tt
  AreApart-delete key ((j, c) ∷ ws) a =
      if_elim AreApart (k.same j key) (λ e. AreApart-delete key ws a.1)
        (λ e. (All-delete (HasNumber c.number) key ws a.0, AreApart-delete key ws a.1))

  -- The waiters that are left have other channels than the one that was found.
  left-apart :
      (key : K) (ch : Channel K) (ws : List (K × Channel K))
      → find key ws ≡ some ch
      → AreApart ws
      → All (HasNumber ch.number) (delete key ws)
  unfolding find delete
  left-apart key ch [] e a = tt
  left-apart key ch ((j, c) ∷ ws) e a = elim (Bool-cases (k.same j key)) [
    | inl s ↦ rw s (rw (← (some_inj (rw s at e))) (All-delete (HasNumber c.number) key ws a.0))
    | inr d ↦ rw d (
      (λ eq. All-find (HasNumber c.number) key ch ws (rw d at e) a.0 (sym eq)),
      left-apart key ch ws (rw d at e) a.1,
    )
  ]

  wait-Inv : (key : K) (s : Waiting K M) → Inv s → Inv (wait key s)
  unfolding wait
  wait-Inv key s (w, a, o, m, b) = (
    All-put (Waits (wait key s)) key (new_channel key s) s.waiters
        (refl, omega arith, All-weaken _ _ s.sent (λ e l q. omega (arith, l, q)) b)
        (All-weaken (Waits s) _ s.waiters (λ e h. (h.0, omega (arith, h.1), h.2)) w),
    AreApart-put key (new_channel key s) s.waiters
        (All-weaken (Waits s) _ s.waiters (λ e h q. omega (arith, h.1, q)) w) a,
    o,
    m,
    All-weaken _ _ s.sent (λ e l. omega (arith, l)) b,
  )

  cancel-Inv : (key : K) (s : Waiting K M) → Inv s → Inv (cancel key s)
  unfolding cancel
  cancel-Inv key s (w, a, o, m, b) =
      (All-delete (Waits s) key s.waiters w, AreApart-delete key s.waiters a, o, m, b)

  send_to-Inv :
      (o : Option (Channel K)) (m : M) (s : Waiting K M)
      → find (key_of m) s.waiters ≡ o
      → Inv s
      → Inv (send_to o (key_of m) m s).1
  send_to-Inv none m s e i = i
  send_to-Inv (some ch) m s e (w, a, o, as', b) =
      let key = key_of m in
      let (made_for, made, unsent) = All-find (Waits s) key ch s.waiters e w in
      (
        All-both (Waits s) (HasNumber ch.number) _ (delete key s.waiters)
            (λ e h n. (h.0, h.1, (λ q. n (sym q), h.2))) (All-delete (Waits s) key s.waiters w)
            (left-apart key ch s.waiters e a),
        AreApart-delete key s.waiters a,
        (unsent, o),
        (sym made_for, as'),
        (made, b),
      )

  receive-Inv : (m : M) (s : Waiting K M) → Inv s → Inv (receive (key_of m) m s).1
  unfolding receive
  receive-Inv m s i = send_to-Inv (find (key_of m) s.waiters) m s refl i

  step-Inv : (c : Call K M) (s : Waiting K M) → Inv s → Inv (step key_of c s)
  unfolding step
  step-Inv (waits key) s i = wait-Inv key s i
  step-Inv (cancels key) s i = cancel-Inv key s i
  step-Inv (receives m) s i = receive-Inv m s i

  run-Inv : (cs : List (Call K M)) (s : Waiting K M) → Inv s → Inv (run key_of cs s)
  unfolding run
  run-Inv [] s i = i
  run-Inv (c ∷ cs) s i = run-Inv cs (step key_of c s) (step-Inv c s i)

  -- Through any calls, no channel is sent two values, so that no send blocks, and each value sent
  -- bears the key that its channel was made for.
  pub run-HasOneEach :
      (cs : List (Call K M))
      → HasOneEach (run key_of cs no_waiters).sent
        × All (λ e. key_of e.1 ≡ e.0.made_for) (run key_of cs no_waiters).sent
  run-HasOneEach cs =
      let (w, a, one, answers, b) = run-Inv cs no_waiters (tt, tt, tt, tt, tt) in (one, answers)

  -- The key a call is about.
  abbrev pub about : Call K M → K
  about (waits key) = key
  about (cancels key) = key
  about (receives m) = key_of m

  find-send_to :
      (o : Option (Channel K)) (a key : K) (m : M) (s : Waiting K M)
      → k.same a key ≡ false
      → find key (send_to o a m s).1.waiters ≡ find key s.waiters
  find-send_to none a key m s h = refl
  find-send_to (some ch) a key m s h = find-delete_ne a key s.waiters h

  find-step :
      (c : Call K M) (key : K) (s : Waiting K M)
      → k.same (about c) key ≡ false
      → find key (step key_of c s).waiters ≡ find key s.waiters
  unfolding step wait cancel receive
  find-step (waits a) key s h = find-put_ne a key _ s.waiters h
  find-step (cancels a) key s h = find-delete_ne a key s.waiters h
  find-step (receives m) key s h = find-send_to _ (key_of m) key m s h

  find-run :
      (cs : List (Call K M)) (key : K) (s : Waiting K M)
      → All (λ c. k.same (about c) key ≡ false) cs
      → find key (run key_of cs s).waiters ≡ find key s.waiters
  unfolding run
  find-run [] key s h = refl
  find-run (c ∷ cs) key s h = find-run cs key (step key_of c s) h.1 ∙ find-step c key s h.0

  find-wait : (key : K) (s : Waiting K M) → find key (wait key s).waiters ≡ some (new_channel key s)
  unfolding wait
  find-wait key s = find-put_self key (new_channel key s) s.waiters

  -- A request that waits is sent its response: whatever calls about other keys stand in between.
  pub receive-run-wait :
      (cs : List (Call K M)) (m : M) (s : Waiting K M)
      → All (λ c. k.same (about c) (key_of m) ≡ false) cs
      → ((receive (key_of m) m (run key_of cs (wait (key_of m) s))).0 ≡ true)
        × ((receive (key_of m) m (run key_of cs (wait (key_of m) s))).1.sent
            ≡ (new_channel (key_of m) s, m) ∷ (run key_of cs (wait (key_of m) s)).sent)
  unfolding receive
  receive-run-wait cs m s others =
      let e = find-run cs (key_of m) (wait (key_of m) s) others ∙ find-wait (key_of m) s in
      rw e (refl, refl)
