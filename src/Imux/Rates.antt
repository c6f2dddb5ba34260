-- ===== src/Imux/Rates.antt =====
-- The loop of the keepalives runs at a bounded rate, and only where `Stop` can end it.
use imessage_for_me.Base.{
  ℕ, ◌≤◌, ◌≡◌, refl, Bool, true, false, not, ◌&&◌, List, [], ◌∷◌, Option, none, some, ltb, ◌==◌,
  arith, if_elim, Bool-cases, inl, inr,
}
use imessage_for_me.Base.Int.{pos, negsuc}
use imessage_for_me.Imux.{
  imux_min_keepalive, Endpoint, HttpResult, context_canceled, Rate, rate_of, imux_error, Imux,
  start_rate, with_loop, next_rate, close, ImuxCall, starts, ticks, stops, closes,
  keepalive_or_register, start, tick, ticked, stop, call, calls,
}

-- A rate of the loop is one second at least, and there is a `cancel` for it.
abbrev pub IsBounded : Bool → Option ℕ → Type 0
IsBounded cancel none = Unit
IsBounded cancel (some r) = (imux_min_keepalive ≤ r) × (cancel ≡ true)

start_rate-IsBounded : (r : Rate) → IsBounded true (start_rate r)
unfolding start_rate
start_rate-IsBounded (imux_error e) = (omega arith, refl)
start_rate-IsBounded (rate_of (negsuc r)) = (omega arith, refl)
start_rate-IsBounded (rate_of (pos r)) =
    if_elim (IsBounded true) (r == 0) (λ e. tt)
      (λ e.
        if_elim (IsBounded true) (ltb r imux_min_keepalive) (λ l. (omega arith, refl))
          (λ l. (ground (arith, l), refl)))

next_rate-IsBounded :
    (b : Bool) (old : ℕ) (r : Rate) → IsBounded b (some old) → IsBounded b (next_rate old r)
unfolding next_rate
next_rate-IsBounded b old (imux_error context_canceled) h = tt
next_rate-IsBounded b old (imux_error e) h = h
next_rate-IsBounded b old (rate_of (negsuc new)) h = h
next_rate-IsBounded b old (rate_of (pos new)) h =
    if_elim (IsBounded b) (new == 0) (λ e. tt)
      (λ e.
        if_elim (IsBounded b) (ltb imux_min_keepalive new && not (new == old))
          (λ l. (ground (arith, l), h.1)) (λ l. h))

abbrev pub Inv : Imux → Type 0
Inv s = IsBounded s.has_cancel s.loop_rate

with_loop-Inv : (o : Option ℕ) (s : Imux) → IsBounded true o → Inv s → Inv (with_loop o s)
with_loop-Inv none s b i = i
with_loop-Inv (some r) s b i = b

close-Inv : (s : Imux) → Inv s → Inv (close s)
unfolding close
close-Inv s i = if_elim Inv (not s.has_cancel) (λ e. i) (λ e. tt)

no_loop : (b : Bool) (o : Option ℕ) → IsBounded b o → b ≡ false → o ≡ none
no_loop b none i e = refl
no_loop b (some r) i e = absurd (ground (arith, i.1, e))

module _ {W : Type 0} (request : Endpoint → W → HttpResult × W) where
  abbrev InvOf : Imux × W → Type 0
  InvOf (s, w) = Inv s

  ticked-Inv :
      (o : Option ℕ) (s : Imux) (w : W)
      → IsBounded s.has_cancel o
      → Inv s
      → InvOf (ticked request o (s, w))
  ticked-Inv none s w b i = i
  ticked-Inv (some old) s w b i = next_rate-IsBounded s.has_cancel old _ b

  call-Inv : (c : ImuxCall) (s : Imux) (w : W) → Inv s → InvOf (call request c (s, w))
  unfolding call start tick stop
  call-Inv starts s w i =
      if_elim InvOf s.has_cancel (λ e. i)
        (λ e.
          if_elim InvOf (not s.has_url) (λ f. i)
            (λ f. with_loop-Inv _ s (start_rate-IsBounded (keepalive_or_register request w).0) i))
  call-Inv ticks s w i = ticked-Inv s.loop_rate s w i i
  call-Inv stops s w i = if_elim InvOf (not s.has_cancel) (λ e. i) (λ e. close-Inv s i)
  call-Inv closes s w i = close-Inv s i

  -- Through any calls and rounds of the loop, whatever the server answers, the loop waits one second
  -- at least between two keepalives, and where it runs there is a `cancel` that ends it.
  pub calls-Inv :
      (cs : List ImuxCall) (s : Imux) (w : W)
      → IsBounded s.has_cancel s.loop_rate
      → IsBounded (calls request cs (s, w)).0.has_cancel (calls request cs (s, w)).0.loop_rate
  unfolding calls
  calls-Inv [] s w i = i
  calls-Inv (c ∷ cs) s w i =
      calls-Inv cs (call request c (s, w)).0 (call request c (s, w)).1 (call-Inv c s w i)

  -- After `Stop` no loop runs, and the next `Start` can start one: there is no `cancel` left.
  pub stop-clears :
      (s : Imux) (w : W)
      → IsBounded s.has_cancel s.loop_rate
      → ((stop request (s, w)).0.loop_rate ≡ none) × ((stop request (s, w)).0.has_cancel ≡ false)
  unfolding stop close
  stop-clears s w i = elim (Bool-cases s.has_cancel) [
    | inl e ↦ simp e (refl, refl)
    | inr e ↦ simp (e, no_loop s.has_cancel s.loop_rate i e) (refl, refl)
  ]

  -- After a round in which the server asks for no keepalives, `Start` starts no loop, whatever the
  -- server would answer to it.
  pub start-tick_end :
      (s : Imux) (w w' : W) (old : ℕ)
      → s.loop_rate ≡ some old
      → s.has_cancel ≡ true
      → keepalive_or_register request w ≡ (rate_of (pos 0), w')
      → (start request (tick request (s, w))).0.loop_rate ≡ none
  unfolding start tick next_rate
  start-tick_end s w w' old loop running zero = simp (loop, running, zero)
