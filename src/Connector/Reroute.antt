-- ===== src/Connector/Reroute.antt =====
-- `RerouteAndReregister` of imessage/imessage/direct/connector.go, which `sendEncryptedMessage` calls
-- when hardly anyone was found. The rerouting request and the registration are arguments over the
-- state of the network; the cache of lookups is the one in memory, whose calls do not fail, and
-- neither do those of the history.
pub mod Again
use imessage_for_me.Base.{
  ℕ, ◌-◌, ◌*◌, Bool, true, false, not, ◌&&◌, ◌||◌, List, [], ◌∷◌, Option, none, some, ltb,
  if◌then◌else◌, is_nil,
}
use imessage_for_me.Base.Assoc.{find, put}
use imessage_for_me.Uri.{ParsedUri}
use imessage_for_me.Uri.Order.Sorted.{uri_key}
use imessage_for_me.Ids.Cache.{day}
use imessage_for_me.Ids.Lookup.{LookupUser}

pub data RerouteError : Type 0 where
  no_reroute_url_configured reroute_ratelimit handles_rerouted_too_recently : RerouteError
  reroute_failed registration_failed : RerouteError

-- The history of rerouted handles with their times.
abbrev pub History : Type 0
History = List (ParsedUri × ℕ)

-- The test of `manualLookupLimiter`, by the whole tokens that it has.
abbrev pub is_past_limit : Option ℕ → Bool
is_past_limit none = false
is_past_limit (some tokens) = ltb tokens 1

-- The test on the time of a handle.
abbrev is_long_ago : ℕ → Option ℕ → Bool
is_long_ago now none = true
is_long_ago now (some t) = ltb (7 * day) (now - t)

-- The loop for a handle that warrants rerouting.
unfoldable pub warrants_reroute : ℕ → History → List ParsedUri → Bool
warrants_reroute now history [] = false
warrants_reroute now history (u ∷ us) =
    is_long_ago now (find u history) || warrants_reroute now history us

-- The loop of `RerouteHistory.Put`.
unfoldable pub put_all : ℕ → List ParsedUri → History → History
put_all now [] history = history
put_all now (u ∷ us) history = put_all now us (put u now history)

module _ {W : Type 0} (clock : W → ℕ) (trigger_reroute : W → Bool × W)
    (register_ids : LookupUser × W → Bool × (LookupUser × W)) where
  abbrev pub after_registering :
      List ParsedUri → Bool × (LookupUser × W) → Option RerouteError × (LookupUser × W)
  after_registering handles (false, s) = (some registration_failed, s)
  after_registering handles (true, (u, w)) = (
    none,
    (
      record u { lookup_cache = []; reroute_history = put_all (clock w) handles u.reroute_history },
      w,
    ),
  )

  abbrev pub after_rerouting :
      List ParsedUri → LookupUser → Bool × W → Option RerouteError × (LookupUser × W)
  after_rerouting handles u (false, w) = (some reroute_failed, (u, w))
  after_rerouting handles u (true, w) = after_registering handles (register_ids (u, w))

  -- `RerouteAndReregister`, with whether a URL is configured and the tokens of the limiter, if any.
  unfoldable pub reroute_and_reregister :
      Bool → Option ℕ → List ParsedUri → LookupUser × W → Option RerouteError × (LookupUser × W)
  reroute_and_reregister has_url tokens handles (u, w) =
      if not has_url
      then (some no_reroute_url_configured, (u, w))
      else if is_past_limit tokens
      then (some reroute_ratelimit, (u, w))
      else if not (is_nil handles) && not (warrants_reroute (clock w) u.reroute_history handles)
      then (some handles_rerouted_too_recently, (u, w))
      else after_rerouting handles u (trigger_reroute w)
