-- ===== src/Receive/Imessage.antt =====
-- `handleIMessage` of imessage/imessage/direct/decrypt.go, with the balloons and the parsing of what a
-- message answers or reacts to. A nil pointer that is read panics.
pub mod Addressed
pub mod Stopped
use imessage_for_me.Base.{
  ℕ, Bool, true, false, not, ◌&&◌, List, [], ◌∷◌, ◌++◌, Option, none, some, Bytes, codes, equal,
  ◌==◌, if◌then◌else◌, is_nil,
}
use imessage_for_me.Apns.Payload.{Run, returned, panicked, out_of_fuel, ◌>>=◌}
use imessage_for_me.Uri.{ParsedUri}
use imessage_for_me.Uri.Order.Sorted.{contains}
use imessage_for_me.Tapback.{Tapback, Parsed, ok, err, parse}
use imessage_for_me.Balloon.{RichLinkMetadata, Attempt, failed}
use imessage_for_me.Balloon as Balloon
use imessage_for_me.Balloon.Handlers.{handle_you_tube_balloon_data, handle_link_balloon_data}
use imessage_for_me.Receive.{
  ℤ, pos, MessagePartInfo, ParsedThreadRoot, imessage, TargetedTapback, Message, SendMessagePayload,
  User, Effect, message, broadcasts_handle, IMessage,
}
use imessage_for_me.Receive.Wire.{Libraries}
use imessage_for_me.Receive.Text.{text_len, copied_uuid}
use imessage_for_me.Receive.Participants.{chat_of}
use imessage_for_me.Receive.Parts.{XmlParts, whole, imessage_parts}

abbrev pub balloon_url : Bytes
balloon_url = codes "com.apple.messages.URLBalloonProvider"

abbrev pub balloon_you_tube : Bytes
balloon_you_tube =
    codes
      "com.apple.messages.MSMessageExtensionBalloonPlugin:EQHXZ8M8AV:com.google.ios.youtube.MessagesExtension"

-- A pointer that is read.
abbrev pub read {ℓ} : {A : Type ℓ} → Option A → Run A
read none = panicked
read (some a) = returned a

-- What is left of a call whose error is only logged.
abbrev or_default {ℓ} : {A : Type ℓ} → A → Attempt A → A
or_default d (Balloon.ok a) = a
or_default d failed = d

module _ (env : Libraries) where
  -- `getBalloonPayload`.
  unfoldable pub get_balloon_payload : IMessage → Option Bytes
  get_balloon_payload m = elim m.balloon_info [
    | none ↦ some m.balloon_payload
    | some info ↦
        if is_nil m.balloon_payload
        then env.download info.url info.owner info.signature info.decryption_key
        else some m.balloon_payload
  ]

  -- `getRichLink`.
  unfoldable pub get_rich_link : IMessage → Run (Attempt (Option RichLinkMetadata))
  get_rich_link m =
      if not (equal m.balloon_id balloon_url)
      then returned (Balloon.ok none)
      else elim (get_balloon_payload m) [
        | none ↦ returned failed
        | some body ↦
            if is_nil body
            then returned (Balloon.ok none)
            else handle_link_balloon_data env.balloons env.archive_calls body
      ]

  -- `convertYouTubeBalloon`.
  unfoldable pub convert_you_tube_balloon : IMessage → Run (Attempt Bytes)
  convert_you_tube_balloon m = elim (get_balloon_payload m) [
    | none ↦ returned failed
    | some body ↦
        if is_nil body
        then returned (Balloon.ok [])
        else handle_you_tube_balloon_data env.balloons env.archive_calls body
  ]

  -- `ParseThreadRoot` of struct.go, its error only logged.
  unfoldable pub parse_thread_root : Bytes → Option ParsedThreadRoot
  parse_thread_root s = elim (env.scan_thread_root s) [
    | none ↦ none
    | some (part, start, len, id) ↦ elim (env.parse_uuid id) [
      | none ↦ none
      | some uuid ↦ some (record {
        part_info = record { part_id = part; start_index = start; length = len };
        id = uuid;
      })
    ]
  ]

  abbrev or_zero : Option ℤ → ℤ
  or_zero none = pos 0
  or_zero (some n) = n

  abbrev targeted : IMessage → Parsed → Option (Option TargetedTapback)
  targeted m (err e) = none
  targeted m (ok t) = some (
      some (record {
        tapback = t;
        part_info = record {
          part_id = pos t.target_part;
          start_index = or_zero m.tapback_target_start_index;
          length = m.tapback_target_length;
        };
      }))

  -- The tapback of a message; nothing where the message is dropped.
  unfoldable pub tapback_of : IMessage → Option (Option TargetedTapback)
  tapback_of m =
      if m.tapback_type == 0
      then some none
      else targeted m (
          parse env.tapbacks (record {
            target_guid_string = m.tapback_target_full_id;
            target_guid = copied_uuid [];
            target_part = 0;
            remove = false;
            type = m.tapback_type;
          }))

  -- The part that the text of a message is, with the balloon and the text that has no part yet.
  abbrev final_part : IMessage → XmlParts → Option MessagePartInfo
  final_part m parts =
      if equal m.balloon_id balloon_you_tube then some (whole 1) else elim parts.text_part [
        | some part ↦ some part
        | none ↦ if is_nil parts.text then none else some (whole (text_len parts.text))
      ]

  you_tube_html : IMessage → Run (Attempt Bytes)
  you_tube_html m =
      if equal m.balloon_id balloon_you_tube
      then convert_you_tube_balloon m
      else returned (Balloon.ok [])

  module _ (user : User) (payload : SendMessagePayload) where
    -- The message, behind everything that may drop it but its tapback.
    built :
        IMessage
        → ParsedUri
        → ParsedUri × List ParsedUri
        → XmlParts
        → Bytes
        → Option RichLinkMetadata
        → Option TargetedTapback
        → ℕ
        → ParsedUri
        → Message
    built m destination (chat, participants) parts html link tapback time sender = record {
      id = copied_uuid payload.message_uuid;
      time = time;
      subject = m.subject;
      text = parts.text;
      html = html;
      text_part = final_part m parts;
      chat = chat;
      sender = sender;
      receiver = destination;
      service = imessage;
      is_from_me = contains user.handles sender;
      group_id = m.group_id;
      attachments = parts.attachments;
      is_audio_message = m.is_audio_message;
      group_name = m.group_name;
      participants = participants;
      effect_id = m.effect_id;
      rich_link = link;
      thread_root = if is_nil m.thread_root then none else parse_thread_root m.thread_root;
      tapback = tapback;
    }

    -- From the parts of the message on.
    emitted : IMessage → ParsedUri → ParsedUri × List ParsedUri → XmlParts → Run (List Effect)
    unfolding built you_tube_html
    emitted m destination addressed parts = do
      html ← you_tube_html m
      link ← get_rich_link m
      time ← read payload.timestamp
      sender ← read payload.sender_id
      returned (elim (tapback_of m) [
        | none ↦ []
        | some tapback ↦
            message (
              built m destination addressed parts (or_default [] html) (or_default none link)
                tapback time sender)
            ∷ []
      ])

    -- From the chat of the message on.
    with_chat : IMessage → ParsedUri → Option (ParsedUri × List ParsedUri) → Run (List Effect)
    unfolding emitted
    with_chat m destination none = returned []
    with_chat m destination (some (chat, participants)) = do
      more ← elim (imessage_parts env m) [
        | none ↦ returned []
        | some parts ↦ emitted m destination (chat, participants) parts
      ]
      returned (broadcasts_handle destination participants ∷ more)

    decoded : Option IMessage → Run (List Effect)
    unfolding with_chat
    decoded none = returned []
    decoded (some m) = if is_nil m.participants then returned [] else (do
      destination ← read payload.destination_id
      with_chat m destination (chat_of destination m.group_id m.participants))

    -- `handleIMessage` on the decompressed body.
    unfoldable pub handle_imessage : Bytes → Run (List Effect)
    unfolding decoded
    handle_imessage body = decoded (env.imessage_of body)
