-- ===== src/Connector/Schedule.antt =====
-- `timeUntilReregisterCheck`, `NextReregisterCheck`, `RegisterIDS` and
-- `checkExistingRegistrationCerts` of imessage/imessage/direct/connector.go: when the client
-- registers again. Times are nanoseconds, and 0 is the zero time; a span that has passed is
-- 0, where Go has a negative one, which every test here treats alike.
pub mod Bounds
use imessage_for_me.Base.{
  ℕ, ◌+◌, ◌-◌, ◌*◌, Bool, true, false, ◌&&◌, ◌||◌, List, [], ◌∷◌, Option, none, some, ltb, ◌==◌,
  if◌then◌else◌,
}
use imessage_for_me.Ids.Cache.{hour, day}

abbrev pub minute : ℕ
minute = 60 * (1000 * 1000 * 1000)

abbrev pub default_register_check_interval : ℕ
default_register_check_interval = day

abbrev pub min_register_check_interval : ℕ
min_register_check_interval = 30 * minute

abbrev pub max_reregister_interval : ℕ
max_reregister_interval = 45 * day

abbrev pub arbitrary_register_check_buffer : ℕ
arbitrary_register_check_buffer = 2 * minute

-- Of a pair of certificates: the end of the ID certificate, where there is one, and the flag.
pub record AuthIdCertPair : Type 0 where
  pub id_cert_not_after : Option ℕ
  pub refresh_needed : Bool

abbrev pub earlier : ℕ → Option ℕ → ℕ
earlier next none = next
earlier next (some not_after) = if ltb not_after next then not_after else next

-- The loop over the certificates.
unfoldable pub next_reregister : ℕ → List AuthIdCertPair → ℕ
next_reregister next [] = next
next_reregister next (c ∷ cs) = next_reregister (earlier next c.id_cert_not_after) cs

unfoldable pub clamped : ℕ → ℕ
clamped span =
    if ltb default_register_check_interval span
    then default_register_check_interval
    else if ltb span min_register_check_interval
    then min_register_check_interval
    else span

-- `timeUntilReregisterCheck`.
unfoldable pub time_until_reregister_check : ℕ → List AuthIdCertPair → ℕ
time_until_reregister_check now certs =
    clamped (next_reregister (now + max_reregister_interval) certs - now)
    - arbitrary_register_check_buffer

-- `NextReregisterCheck`.
unfoldable pub next_reregister_check : ℕ → ℕ → List AuthIdCertPair → ℕ
next_reregister_check stored now certs =
    if stored == 0 then now + time_until_reregister_check now certs else stored

-- How `registerIDSWithRefreshCredentialErrors` ends.
pub data Registered : Type 0 where
  registered refresh_credentials provider_not_reachable other_failure : Registered

pub data RegisterEvent : Type 0 where
  nac_serv_fail ids_register_fail ids_register_success : RegisterEvent

-- What `RegisterIDS` does behind the registration: the event it sends, whether it returns an error,
-- and the span it resets the ticker to.
unfoldable pub register_ids :
    ℕ → List AuthIdCertPair → Registered → Option RegisterEvent × (Bool × Option ℕ)
register_ids now certs refresh_credentials = (none, (false, none))
register_ids now certs provider_not_reachable = (some nac_serv_fail, (true, some hour))
register_ids now certs other_failure = (some ids_register_fail, (true, none))
register_ids now certs registered =
    (some ids_register_success, (false, some (time_until_reregister_check now certs)))

-- The buffer before the end of a certificate, by its approximate lifetime.
unfoldable pub expire_safety : ℕ → ℕ
expire_safety lifetime =
    if ltb lifetime (8 * hour)
    then 3 * minute
    else if ltb lifetime day
    then 30 * minute
    else if ltb lifetime (7 * day)
    then 4 * hour
    else 24 * hour

abbrev pub is_near_end : ℕ → ℕ → Option ℕ → Bool
is_near_end registered_at now none = true
is_near_end registered_at now (some not_after) =
    ltb (not_after - now) (expire_safety (not_after - registered_at))

abbrev pub needs_refresh : AuthIdCertPair → Option ℕ → Bool
needs_refresh c none = false
needs_refresh c (some not_after) = c.refresh_needed

unfoldable pub check_certs : ℕ → ℕ → List AuthIdCertPair → Bool × Bool → Bool × Bool
check_certs registered_at now [] s = s
check_certs registered_at now (c ∷ cs) (expiring, refresh) = check_certs registered_at now cs (
  is_near_end registered_at now c.id_cert_not_after || expiring,
  needs_refresh c c.id_cert_not_after || refresh,
)

-- `checkExistingRegistrationCerts`: whether something expires, and whether a refresh is needed.
unfoldable pub check_existing_registration_certs : ℕ → ℕ → List AuthIdCertPair → Bool × Bool
check_existing_registration_certs registered_at now certs =
    check_certs registered_at now certs
      (registered_at == 0 || ltb max_reregister_interval (now - registered_at), false)
