-- ===== src/Relay/Provider/Takeover.antt =====
-- A provider that comes back under its code, and the exit of the one that it replaced.
use imessage_for_me.Base.Assoc.{bytes_key}
use imessage_for_me.Base.{
  ℕ, ◌≡◌, ◌≢◌, ◌≤◌, refl, true, false, List, [], ◌∷◌, none, some, Bytes, equal, equal_refl, ◌==◌,
  ==_refl, length, is_nil, arith, Bool-cases, Option-cases, inl, inr,
}
use imessage_for_me.Base.Assoc.{find, find-put_self, find-delete_self, find-delete_ne}
use imessage_for_me.Relay.Code.{generate_provider_code, length-generate_provider_code}
use imessage_for_me.Relay.Provider.{
  Secrets, RegisterData, Registry, get_provider, is_right_secret, kick, enter, register_provider,
  unregister_provider, Message, websocket_messages, websocket_loop,
}

enter_self : (r : Registry) (code : Bytes) (p : ℕ) → get_provider (enter r code p) code ≡ some p
unfolding enter get_provider
enter_self r code p = find-put_self code p r.providers

-- `UnregisterProvider` removes a code that stands for the leaving provider, keeps one that
-- stands for another, and leaves every other code as it is.
pub unregister_lem :
    (r : Registry) (code other : Bytes) (p q : ℕ)
    → (get_provider r code ≡ some p → get_provider (unregister_provider r code p) code ≡ none)
      × (get_provider r code ≡ some q
          → q ≢ p
          → get_provider (unregister_provider r code p) code ≡ some q)
      × (equal code other ≡ false
          → get_provider (unregister_provider r code p) other ≡ get_provider r other)
unfolding unregister_provider get_provider
unregister_lem r code other p q = (
  (λ e. rw (e, unregister_provider) (rw (==_refl p) (find-delete_self code r.providers))),
  (λ e ne.
      let other_one : (q == p) ≡ false = ground arith in
      rw (e, unregister_provider) (rw other_one e)),
  (λ far. elim (Option-cases (find code r.providers)) [
    | inl e ↦ rw (e, unregister_provider)
    | inr (o, e) ↦
        rw (e, unregister_provider)
          (elim (Bool-cases (o == p)) [
            | inl same ↦ rw same (find-delete_ne code other r.providers far)
            | inr differ ↦ rw differ
          ])
  ]),
)

-- What the libraries promise: unpadded base64 is read back, and the secret of a code, which is 32
-- bytes, takes no more than 64 characters.
pub record IsCodec (env : Secrets) : Type 0 where
  pub decode-encode : (bytes : Bytes) → env.decode (env.encode bytes) ≡ some bytes
  pub short : (code : Bytes) → length (env.encode (env.calculate_secret code)) ≤ 64

abbrev pub issued : Secrets → Bytes → RegisterData
issued env code = record { code = code; secret = env.encode (env.calculate_secret code) }

issued-is_right_secret :
    (env : Secrets) (code : Bytes)
    → IsCodec env
    → length code ≡ 19
    → is_right_secret env (issued env code) ≡ true
unfolding is_right_secret
issued-is_right_secret env code c l = ground (
  arith,
  c.short code,
  c.decode-encode (env.calculate_secret code),
  equal_refl (env.calculate_secret code),
)

filled : (code : Bytes) → length code ≡ 19 → is_nil code ≡ false
filled [] l = absurd (omega arith)
filled (c ∷ cs) l = refl

kicked_lem :
    (r : Registry) (code : Bytes) (p q : ℕ)
    → (enter (kick (enter r code p) (find code (enter r code p).providers)) code q).kicked
      ≡ p ∷ r.kicked
unfolding enter kick
kicked_lem r code p q = rw (find-put_self code p r.providers)

-- Where the codec keeps its promises and 16 random numbers were drawn, a new provider gets the
-- generated code and its secret. Another provider that registers with these takes the code over and
-- the first is kicked out; when the first unregisters on its way out, the code still stands for the
-- second.
pub takeover :
    (env : Secrets) (numbers : List ℕ) (r : Registry) (p q : ℕ)
    → IsCodec env
    → length numbers ≡ 16
    → q ≢ p
    → (r1 : Registry) × (r2 : Registry) × (register_provider env
          (some (generate_provider_code numbers))
          (record { code = []; secret = [] })
          p
          r
        ≡ some (issued env (generate_provider_code numbers), r1))
      × (get_provider r1 (generate_provider_code numbers) ≡ some p)
      × (register_provider env none (issued env (generate_provider_code numbers)) q r1
          ≡ some (issued env (generate_provider_code numbers), r2))
      × (r2.kicked ≡ p ∷ r.kicked)
      × (get_provider
            (unregister_provider r2 (generate_provider_code numbers) p)
            (generate_provider_code numbers)
          ≡ some q)
takeover env numbers r p q c n ne =
    let code : Bytes = generate_provider_code numbers in
    let l = length-generate_provider_code numbers n in
    let r1 : Registry = enter r code p in
    let first = enter_self r code p in
    let r2 : Registry = enter (kick r1 (find code r1.providers)) code q in
    (
      r1,
      r2,
      unfold register_provider in refl,
      first,
      unfold register_provider in rw (filled code l, issued-is_right_secret env code c l),
      kicked_lem r code p q,
      (unregister_lem r2 code code p q).1 (enter_self _ code q) ne,
    )

unregister_gone :
    (r : Registry) (code : Bytes) (p : ℕ)
    → get_provider (unregister_provider r code p) code ≢ some p
unfolding get_provider unregister_provider
unregister_gone r code p = elim (Option-cases (find code r.providers)) [
  | inl e ↦ rw (e, unregister_provider) (rw e (λ h. cc))
  | inr (o, e) ↦
      rw (e, unregister_provider)
        (elim (Bool-cases (o == p)) [
          | inl same ↦ rw same (rw (find-delete_self code r.providers) (λ h. cc))
          | inr differ ↦ rw differ (rw e (λ h. ground arith))
        ])
]

-- When the loop of a provider's websocket has ended, for whatever messages with a registration that
-- succeeded, the code of the last such registration does not stand for this provider any more.
pub websocket_exit :
    (env : Secrets) (p : ℕ) (r : Registry) (ms : List Message)
    → is_nil
        (websocket_messages env p (record { registry = r; registered = false; code = [] }) ms).code
      ≡ false
    → get_provider
        (websocket_loop env p r ms)
        (websocket_messages env p (record { registry = r; registered = false; code = [] }) ms).code
      ≢ some p
unfolding websocket_loop
websocket_exit env p r ms h = rw h (unregister_gone _ _ p)
