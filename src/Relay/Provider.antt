-- ===== src/Relay/Provider.antt =====
-- registration-relay/internal/provider/provider.go: which provider a code stands for. A provider is
-- known by a number, as the source compares pointers. Every call holds the lock of the map.
pub mod Takeover
use imessage_for_me.Base.Assoc.{bytes_key}
use imessage_for_me.Base.{
  ℕ, ◌≡◌, Bool, true, false, not, ◌&&◌, ◌||◌, List, [], ◌∷◌, ◌++◌, Option, none, some, Bytes, equal,
  equal_iff, ltb, ◌==◌, if◌then◌else◌, length, is_nil,
}
use imessage_for_me.Base.Assoc.{Key, find, put, delete}

-- What the relay takes from the standard library: the keyed hash of a code, and unpadded base64.
pub record Secrets : Type 0 where
  pub calculate_secret : Bytes → Bytes
  pub encode : Bytes → Bytes
  pub decode : Bytes → Option Bytes

-- The code and the secret of `registerCommandData`.
pub record RegisterData : Type 0 where
  pub code : Bytes
  pub secret : Bytes

-- `codeToProvider`, and the providers whose websocket was closed from this side.
pub record Registry : Type 0 where
  pub providers : List (Bytes × ℕ)
  pub kicked : List ℕ

-- `GetProvider`.
unfoldable pub get_provider : Registry → Bytes → Option ℕ
get_provider r code = find code r.providers

-- The test on a presented secret.
unfoldable pub is_right_secret : Secrets → RegisterData → Bool
is_right_secret env d =
    if not (length d.code == 19) || ltb 64 (length d.secret)
    then false
    else elim (env.decode d.secret) [
      | none ↦ false
      | some secret ↦ equal (env.calculate_secret d.code) secret
    ]

-- A provider under the same code is kicked out.
unfoldable pub kick : Registry → Option ℕ → Registry
kick r none = r
kick r (some p) = record r { kicked = p ∷ r.kicked }

unfoldable pub enter : Registry → Bytes → ℕ → Registry
enter r code p = record r { providers = put code p r.providers }

-- `RegisterProvider`; the fresh code is none where none could be generated. With an error nothing
-- is changed.
unfoldable pub register_provider :
    Secrets → Option Bytes → RegisterData → ℕ → Registry → Option (RegisterData × Registry)
register_provider env fresh d p r =
    if is_nil d.code
    then elim fresh [
      | none ↦ none
      | some code ↦
          some (
            record { code = code; secret = env.encode (env.calculate_secret code) },
            enter r code p,
          )
    ]
    else if is_right_secret env d
    then some (d, enter (kick r (find d.code r.providers)) d.code p)
    else none

-- `UnregisterProvider`.
unfoldable pub unregister_provider : Registry → Bytes → ℕ → Registry
unregister_provider r code p = elim (find code r.providers) [
  | none ↦ r
  | some q ↦ if q == p then record r { providers = delete code r.providers } else r
]

-- What arrives on a provider's websocket: a command, or a message that cannot be read.
pub data Message : Type 0 where
  register : RegisterData → Option Bytes → Message
  ping response unknown malformed : Message

-- The state of `WebsocketLoop`: the map, the flag of the provider and the code to unregister.
pub record Session : Type 0 where
  pub registry : Registry
  pub registered : Bool
  pub code : Bytes

-- What follows a registration that succeeded.
abbrev pub registered_as : Session → RegisterData × Registry → Session
registered_as s (d, r) = record { registry = r; registered = true; code = d.code }

-- The loop of `WebsocketLoop`; the list ends where reading fails.
unfoldable pub websocket_messages : Secrets → ℕ → Session → List Message → Session
websocket_messages env p s [] = s
websocket_messages env p s (malformed ∷ ms) = s
websocket_messages env p s (register d fresh ∷ ms) =
    elim (register_provider env fresh d p s.registry) [
      | none ↦ s
      | some done ↦ websocket_messages env p (registered_as s done) ms
    ]
websocket_messages env p s (_ ∷ ms) = websocket_messages env p s ms

-- `WebsocketLoop`, from its start to its exit.
unfoldable pub websocket_loop : Secrets → ℕ → Registry → List Message → Registry
websocket_loop env p r ms =
    let s = websocket_messages env p (record { registry = r; registered = false; code = [] }) ms in
    if is_nil s.code then s.registry else unregister_provider s.registry s.code p
