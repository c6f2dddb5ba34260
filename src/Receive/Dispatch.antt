-- ===== src/Receive/Dispatch.antt =====
-- `handleEncryptedAPNSMessage` of imessage/imessage/direct/decrypt.go with the two decryptions, and
-- `handleAPNSMessage`, `handleRead` and `handleTyping` of connector.go. The cryptography of
-- ids/encryptsign_pair.go and ids/encryptsign_pair_ec.go is an argument.
pub mod Ended
pub mod Enough
use imessage_for_me.Base.{
  ℕ, zero, suc, Bool, true, false, not, ◌&&◌, ◌||◌, List, [], ◌∷◌, ◌++◌, Option, none, some, Bytes,
  codes, equal, ◌==◌, if◌then◌else◌, is_nil, is_some,
}
use imessage_for_me.Apns.Payload.{Run, returned, panicked, out_of_fuel, ◌>>=◌}
use imessage_for_me.Delivery.{uuid_of}
use imessage_for_me.Uri.{ParsedUri, same_uri}
use imessage_for_me.Uri.Order.Sorted.{contains}
use imessage_for_me.Balloon.Handlers.{maybe_gunzip}
use imessage_for_me.Receive.{
  SendMessagePayload, User, Effect, read_receipt, typing_notification, invalid_signature,
  invalidates, registers_again, handles_delivered, handles_ack,
}
use imessage_for_me.Receive.Wire.{AsyncMessage, Libraries}
use imessage_for_me.Receive.Text.{decode_hex}
use imessage_for_me.Receive.Imessage.{read, handle_imessage}
use imessage_for_me.Receive.Group.{
  handle_link_preview_edit, handle_imessage_edit, handle_imessage_group_meta,
}
use imessage_for_me.Receive.Sms.{
  toggle, handle_incoming_sms, handle_incoming_mms, handle_reflected_sms, handle_delete_sync,
  handle_mark_unread, handle_sms_enable_request_code,
}

-- What the cryptography does with the body of a payload, by the kind of encryption: parsing and key
-- agreement, the test of the signature of a destination and a sender, and the decryption.
pub record Cryptography (B : Type 0) : Type 0 where
  pub parse_body : Bytes → Option B
  pub verifies : ParsedUri → ParsedUri → Bytes → B → Bool
  pub decrypt : B → Option Bytes

-- `MessageType` of apns/sendmessagepayload.go.
abbrev pub imessage_async : ℕ
imessage_async = 104

-- A run that leaves the user and effects.
abbrev pub Handled : Type 0
Handled = Run (Option User × List Effect)

abbrev with_user : User → Run (List Effect) → Handled
with_user user (returned es) = returned (some user, es)
with_user user panicked = panicked
with_user user out_of_fuel = out_of_fuel

abbrev after : List Effect → Handled → Handled
after before (returned (user, es)) = returned (user, before ++ es)
after before panicked = panicked
after before out_of_fuel = out_of_fuel

-- `decryptPairEncryptedMessage` and `decryptPairECEncryptedMessage`: a signature that is wrong is
-- reported, and the body is decrypted all the same.
unfoldable pub decrypt_message :
    {B : Type 0} → Cryptography B → SendMessagePayload → Run (Option Bytes × List Effect)
decrypt_message c p = elim (c.parse_body p.payload) [
  | none ↦ returned (none, [])
  | some b ↦ (do
    destination ← read p.destination_id
    sender ← read p.sender_id
    returned (
      c.decrypt b,
      if c.verifies destination sender p.token b then [] else invalid_signature ∷ [],
    ))
]

-- A payload with the downloaded body, and its own command in place of the wrapper's.
abbrev pub unwrapped : SendMessagePayload → Bytes → SendMessagePayload
unwrapped p content = record p {
  payload = content;
  command = p.original_command;
  original_command = 0;
}

abbrev own : Option User → ParsedUri → Run Bool
own user sender = do u ← read user; returned (contains u.handles sender)

-- `handleRead` and `handleTyping`.
unfoldable pub handle_read : Option User → SendMessagePayload → Handled
handle_read user p = elim p.sender_id [
  | none ↦ returned (user, [])
  | some sender ↦ (do
    is_own ← own user sender
    time ← read p.timestamp
    returned (user, read_receipt sender is_own (uuid_of p.message_uuid) time ∷ []))
]

unfoldable pub handle_typing : Option User → SendMessagePayload → Handled
handle_typing user p = elim p.sender_id [
  | none ↦ returned (user, [])
  | some sender ↦ returned (user, typing_notification sender (is_nil p.payload) ∷ [])
]

-- The case of an invalidated cache entry.
invalidate : Option User → SendMessagePayload → Handled
invalidate user p = do
  destination ← read p.destination_id
  sender ← read p.sender_id
  again ← if same_uri sender destination then returned true else own user sender
  returned (user, invalidates destination sender ∷ (if again then registers_again ∷ [] else []))

-- The commands of which `handleAPNSMessage` says that their payload is encrypted.
abbrev pub encrypted_commands : List ℕ
encrypted_commands =
    100 ∷ 118 ∷ 111 ∷ 190 ∷ 142 ∷ 145 ∷ 140 ∷ 141 ∷ 143 ∷ 144 ∷ 149 ∷ 146 ∷ 131 ∷ 181 ∷ 182 ∷ 180
    ∷ 196 ∷ 104 ∷ []

abbrev member : ℕ → List ℕ → Bool
member n [] = false
member n (m ∷ ms) = n == m || member n ms

-- The calls of `handleEncryptedAPNSMessage` that a payload can need: its own, one for an
-- asynchronous message, and one for another in it.
abbrev pub calls : ℕ
calls = 3

module _ {B C : Type 0} (env : Libraries) (pair : Cryptography B) (pair_ec : Cryptography C) where
  -- The body of an asynchronous message, as it is downloaded.
  unfoldable pub async_body : Bytes → Option Bytes
  async_body body = elim (env.async_of body) [
    | none ↦ none
    | some m ↦ elim (decode_hex m.signature_hex) [
      | none ↦ none
      | some signature ↦ env.download m.download_url m.object_id signature []
    ]
  ]

  toggled : User → SendMessagePayload → Bytes → Handled
  toggled user p body = elim (env.toggle_of body) [
    | none ↦ returned (some user, [])
    | some evt ↦ (do (user', es) ← toggle user p evt; returned (some user', es))
  ]

  -- The switch over the other commands.
  unfoldable pub handle_command : User → SendMessagePayload → Bytes → Handled
  unfolding toggled
  handle_command user p body =
      if p.command == 100
      then with_user user (handle_imessage env user p body)
      else if p.command == 118
      then with_user user (handle_imessage_edit env user p body)
      else if p.command == 190
      then with_user user (handle_imessage_group_meta env user p body)
      else if p.command == 142
      then with_user user (handle_sms_enable_request_code env p body)
      else if p.command == 145
      then toggled user p body
      else if p.command == 140
      then with_user user (handle_incoming_sms env p body)
      else if p.command == 141
      then with_user user (handle_incoming_mms env p body)
      else if p.command == 143 || p.command == 144
      then with_user user (handle_reflected_sms env p body)
      else if p.command == 181
      then with_user user (handle_delete_sync env p body)
      else if p.command == 111
      then with_user user (handle_mark_unread env p body)
      else if p.command == 196
      then with_user user (handle_link_preview_edit env user p body)
      else returned (some user, [])

  -- The decryption that the type of a payload asks for.
  unfoldable pub decrypted : SendMessagePayload → Run (Option Bytes × List Effect)
  decrypted p =
      if equal p.encryption_type (codes "pair")
      then decrypt_message pair p
      else if equal p.encryption_type (codes "pair-ec")
      then decrypt_message pair_ec p
      else returned (none, [])

  -- From the decrypted body on: it is unpacked, and must be a property list.
  unfoldable pub with_body :
      (SendMessagePayload → Handled) → User → SendMessagePayload → Option Bytes → Handled
  with_body again user p none = returned (some user, [])
  with_body again user p (some encoded) = elim (maybe_gunzip env.balloons.gunzip encoded) [
    | none ↦ returned (some user, [])
    | some body ↦
        if not (env.is_map body)
        then returned (some user, [])
        else if p.command == imessage_async
        then elim (async_body body) [
          | none ↦ returned (some user, [])
          | some content ↦ again (unwrapped p content)
        ]
        else handle_command user p body
  ]

  -- `handleEncryptedAPNSMessage`, which calls itself for an asynchronous message.
  unfoldable pub handle_encrypted_apns_message : ℕ → Option User → SendMessagePayload → Handled
  handle_encrypted_apns_message zero user p = out_of_fuel
  handle_encrypted_apns_message (suc fuel) none p = returned (none, [])
  handle_encrypted_apns_message (suc fuel) (some user) p =
      let again = handle_encrypted_apns_message fuel (some user) in
      if not user.has_auth_certs
      then returned (some user, [])
      else (do (body, es) ← decrypted p; after es (with_body again user p body))

  unknown : Bool → Option User → SendMessagePayload → Handled
  unknown traces user p =
      if (equal p.encryption_type (codes "pair") || equal p.encryption_type (codes "pair-ec"))
        && not (is_nil p.payload)
        && traces
      then handle_encrypted_apns_message calls user p
      else returned (user, [])

  -- The switch of `handleAPNSMessage`.
  by_command : Bool → Option User → SendMessagePayload → Handled
  unfolding invalidate unknown
  by_command traces user p =
      if member p.command encrypted_commands
      then handle_encrypted_apns_message calls user p
      else if p.command == 130
      then invalidate user p
      else if p.command == 101
      then returned (user, handles_delivered ∷ [])
      else if p.command == 255
      then returned (user, handles_ack ∷ [])
      else if p.command == 102 || p.command == 147
      then handle_read user p
      else if p.command == 160 || p.command == 120
      then returned (user, [])
      else unknown traces user p

  -- `handleAPNSMessage`, with the test whether the log traces.
  unfoldable pub handle_apns_message : Bool → Option User → SendMessagePayload → Handled
  unfolding by_command
  handle_apns_message traces user p =
      if is_some p.expiration_seconds
      then handle_typing user p
      else if p.is_on_ids_topic
      then returned (user, [])
      else by_command traces user p
