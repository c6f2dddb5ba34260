-- ===== src/Connector/Schedule/Bounds.antt =====
-- The next check comes in time for every certificate, and what is not expiring has time left.
use imessage_for_me.Base.{
  ℕ, ◌+◌, ◌-◌, ◌*◌, ◌≤◌, ◌≡◌, ◌⊎◌, ◌≢◌, refl, Bool, false, ◌||◌, List, [], ◌∷◌, Option, none, some,
  All, arith,
}
use imessage_for_me.Ids.Cache.{day}
use imessage_for_me.Connector.Schedule.{
  minute, AuthIdCertPair, next_reregister, clamped, time_until_reregister_check,
  max_reregister_interval, expire_safety, is_near_end, check_certs,
  check_existing_registration_certs,
}

or_left : (a b : Bool) → (a || b) ≡ false → a ≡ false
or_left a b h = ground arith

or_right : (a b : Bool) → (a || b) ≡ false → b ≡ false
or_right a b h = ground arith

clamped_lem :
    (span : ℕ)
    → (30 * minute ≤ clamped span)
      × (clamped span ≤ day)
      × ((clamped span ≤ span) ⊎ (clamped span ≡ 30 * minute))
unfolding clamped
clamped_lem span = ground arith

-- The next check comes between 28 minutes and a day less two minutes from now.
pub time_until_reregister_check_lem :
    (now : ℕ) (certs : List AuthIdCertPair)
    → (28 * minute ≤ time_until_reregister_check now certs)
      × (time_until_reregister_check now certs + 2 * minute ≤ day)
unfolding time_until_reregister_check
time_until_reregister_check_lem now certs =
    let c = clamped_lem (next_reregister (now + max_reregister_interval) certs - now) in
    (omega (arith, c.0), omega (arith, c.1))

-- A certificate that ends, where it is one that does, no earlier than this.
abbrev EndsFrom : ℕ → Option ℕ → Type 0
EndsFrom t none = Unit
EndsFrom t (some n) = t ≤ n

-- The check comes two minutes before the end of the certificate, or, where it ends within half an
-- hour or has ended, 28 minutes from now.
abbrev pub IsInTime : ℕ → ℕ → Option ℕ → Type 0
IsInTime now check none = Unit
IsInTime now check (some n) =
    (now + check + 2 * minute ≤ n) ⊎ ((n ≤ now + 30 * minute) × (check ≡ 28 * minute))

-- A certificate with more than three minutes left.
abbrev pub Lasts : ℕ → AuthIdCertPair → Type 0
Lasts now c = (n : ℕ) × (c.id_cert_not_after ≡ some n) × (now + 3 * minute ≤ n)

expire_safety_ge : (lifetime : ℕ) → 3 * minute ≤ expire_safety lifetime
unfolding expire_safety
expire_safety_ge lifetime = ground arith

is_near_end-Lasts :
    (registered_at now : ℕ) (c : AuthIdCertPair) (o : Option ℕ)
    → c.id_cert_not_after ≡ o
    → is_near_end registered_at now o ≡ false
    → Lasts now c
is_near_end-Lasts registered_at now c none e h = absurd (ground (arith, h))
is_near_end-Lasts registered_at now c (some n) e h =
    (n, e, ground (arith, h, expire_safety_ge (n - registered_at)))

check_certs_lem :
    (registered_at now : ℕ) (certs : List AuthIdCertPair) (s : Bool × Bool)
    → (check_certs registered_at now certs s).0 ≡ false
    → (s.0 ≡ false) × All (Lasts now) certs
unfolding check_certs
check_certs_lem registered_at now [] s h = (h, tt)
check_certs_lem registered_at now (c ∷ cs) (expiring, refresh) h =
    let (e, rest) = check_certs_lem registered_at now cs _ h in
    (
      or_right (is_near_end registered_at now c.id_cert_not_after) expiring e,
      (
        is_near_end-Lasts registered_at now c c.id_cert_not_after refl
            (or_left (is_near_end registered_at now c.id_cert_not_after) expiring e),
        rest,
      ),
    )

-- Where nothing is expiring, the account was registered 45 days ago at most, and each pair has an
-- ID certificate with three minutes left.
pub check_existing_registration_certs_lem :
    (registered_at now : ℕ) (certs : List AuthIdCertPair)
    → (check_existing_registration_certs registered_at now certs).0 ≡ false
    → (registered_at ≢ 0) × (now ≤ registered_at + max_reregister_interval) × All (Lasts now) certs
unfolding check_existing_registration_certs
check_existing_registration_certs_lem registered_at now certs h =
    let (start, rest) = check_certs_lem registered_at now certs _ h in
    ((λ z. ground (arith, start, z)), ground (arith, start), rest)
