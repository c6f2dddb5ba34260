-- ===== src/Receive/Sms.antt =====
-- Text messages that a phone forwards, in imessage/imessage/direct/decrypt.go: the switching of the
-- forwarding, incoming messages and those that the phone sent, with the deletion of chats and the
-- mark that a chat is unread.
pub mod Reflected
use imessage_for_me.Base.{
  ℕ, zero, suc, ◌+◌, Bool, true, false, not, ◌&&◌, ◌||◌, List, [], ◌∷◌, ◌++◌, Option, none, some,
  Bytes, codes, equal, ltb, ◌==◌, if◌then◌else◌, length, is_nil, is_some,
}
use imessage_for_me.Apns.Payload.{Run, returned, panicked, out_of_fuel, ◌>>=◌}
use imessage_for_me.Uri.{ParsedUri, empty_uri, group, mailto, tel, is_plus_number, cut}
use imessage_for_me.Uri.Identifier.{parse_identifier}
use imessage_for_me.Chat as Chat
use imessage_for_me.Receive.{
  ℤ, pos, Attachment, sms, Message, SendMessagePayload, SmsForwarding, User, Effect, message,
  chat_deleted, mark_unread, sms_enable_request_code, sms_forwarding_toggled, config_updated,
  send_failed, sends_read_receipt, UploadedAttachment,
}
use imessage_for_me.Receive.Wire.{
  IncomingSms, ReflectedSms, SmsForwardingToggled, DeletedChat, Libraries,
}
use imessage_for_me.Receive.Text.{text_len, trim_objects, decode_hex}
use imessage_for_me.Delivery.{uuid_of}
use imessage_for_me.Receive.Participants.{
  parse_incoming_sms_forward, parsed_with_error, parse_incoming_mms_participants, make_mms_group_id,
  parse_reflected_mms_participants,
}
use imessage_for_me.Receive.Parts.{XmlParts, convert_attachment, sms_parts}
use imessage_for_me.Receive.Imessage.{read}

-- `GetToken`; nil has no token.
abbrev pub token_of : Option SmsForwarding → Bytes
token_of none = []
token_of (some f) = f.token

-- `handleIMessageSMSForwardingToggled` on a decoded event: the user and the effects.
unfoldable pub toggle : User → SendMessagePayload → SmsForwardingToggled → Run (User × List Effect)
toggle user payload evt =
    if evt.ar
    then (do
      sender ← read payload.sender_id
      returned (
        record user { sms_forwarding = some (record { token = payload.token; handle = sender }) },
        sends_read_receipt sender (uuid_of payload.message_uuid)
            ∷ config_updated
            ∷ sms_forwarding_toggled
            ∷ [],
      ))
    else if evt.ud && is_some evt.g
    then (do
      guid ← read evt.g
      time ← read payload.timestamp
      returned (user, send_failed guid time ∷ sms_forwarding_toggled ∷ []))
    else if evt.ue && equal (token_of user.sms_forwarding) payload.token
    then returned
        (record user { sms_forwarding = none }, config_updated ∷ sms_forwarding_toggled ∷ [])
    else returned (user, sms_forwarding_toggled ∷ [])

-- The chat of a deletion.
unfoldable pub deleted_chat : DeletedChat → Run Effect
deleted_chat c = do
  id ← read (Chat.parse_identifier c.guid)
  returned (
      chat_deleted (
        if id.is_group
        then record { scheme = group; identifier = c.group_id }
        else if is_some (cut b'@' id.local_id)
        then record { scheme = mailto; identifier = id.local_id }
        else record { scheme = tel; identifier = id.local_id }))

unfoldable pub deleted_chats : List DeletedChat → Run (List Effect)
deleted_chats [] = returned []
deleted_chats (c ∷ cs) = do e ← deleted_chat c; es ← deleted_chats cs; returned (e ∷ es)

-- What the loop over the attachments of a reflected message has: how many there were, those that were
-- converted, and whether one of them is a voice message.
pub record Reflecting : Type 0 where
  pub count : ℕ
  pub attachments : List Attachment
  pub is_audio : Bool

abbrev is_voice : Attachment → Bool
is_voice a =
    equal a.uti_type (codes "com.apple.coreaudio-format")
    || equal a.uti_type (codes "org.3gpp.adaptive-multi-rate-audio")

abbrev take_in : Reflecting → Option Attachment → Reflecting
take_in r none = record r { count = suc r.count }
take_in r (some a) = record {
  count = suc r.count;
  attachments = r.attachments ++ a ∷ [];
  is_audio = r.is_audio || is_voice a;
}

-- The attachments of a reflected message get their numbers as parts. Nothing of it is inline.
unfoldable pub reflect_loop : List UploadedAttachment → Reflecting → Reflecting
reflect_loop [] r = r
reflect_loop (att ∷ atts) r = reflect_loop atts (
    take_in r
      (convert_attachment (λ name. none) r.count (record att { message_part = pos r.count })))

abbrev nothing_reflected : Reflecting
nothing_reflected = record { count = 0; attachments = []; is_audio = false }

module _ (env : Libraries) (payload : SendMessagePayload) where
  -- The participants and the chat of a reflected message, with the error as a test.
  unfoldable pub reflected_chat : ReflectedSms → List ParsedUri × ParsedUri × Bool
  reflected_chat m =
      if ltb 1 (length m.recipients)
      then parse_reflected_mms_participants env.locale env.sha256_base64url m.recipients
      else (let (chat, failed) =
            parsed_with_error m.handle
              (parse_identifier env.locale m.handle parse_incoming_sms_forward) in
          (chat ∷ [], chat, failed))

  reflected_message :
      ReflectedSms → List ParsedUri × ParsedUri → Reflecting → ℕ → ParsedUri → Message
  reflected_message m (participants, chat) r time sender =
      let body = trim_objects m.plain_body in
      record {
        id = m.guid;
        time = time;
        subject = m.subject;
        text = body;
        html = [];
        text_part = some (record {
          part_id = pos r.count;
          start_index = pos r.count;
          length = pos (text_len body);
        });
        chat = chat;
        sender = sender;
        receiver = sender;
        service = sms;
        is_from_me = true;
        group_id = [];
        attachments = r.attachments;
        is_audio_message = r.is_audio;
        group_name = [];
        participants = participants;
        effect_id = [];
        rich_link = none;
        thread_root = none;
        tapback = none;
      }

  -- Its end: the last error decides, and reading the markup replaces that of the participants.
  reflected_end : ReflectedSms → List ParsedUri × ParsedUri → Bool → Reflecting → Run (List Effect)
  unfolding reflected_message
  reflected_end m chat true r = returned []
  reflected_end m chat false r = do
    time ← read payload.timestamp
    sender ← read payload.sender_id
    returned (message (reflected_message m chat r time sender) ∷ [])

  -- `handleReflectedSMS` on a decoded message.
  unfoldable pub reflect : ReflectedSms → Run (List Effect)
  unfolding reflected_end
  reflect m =
      let (participants, chat, failed) = reflected_chat m in
      if is_nil m.xhtml
      then reflected_end m (participants, chat) failed nothing_reflected
      else elim (env.xml_of m.xhtml) [
        | none ↦ returned []
        | some xml ↦
            reflected_end m (participants, chat) false
              (reflect_loop xml.attachments nothing_reflected)
      ]

  incoming_message : IncomingSms → ParsedUri → ParsedUri → List ParsedUri → XmlParts → Message
  incoming_message m sender receiver recipients parts = record {
    id = m.message_uuid;
    time = m.timestamp;
    subject = m.subject;
    text = parts.text;
    html = [];
    text_part = parts.text_part;
    chat =
        if ltb 1 (length recipients)
        then make_mms_group_id env.sha256_base64url recipients
        else sender;
    sender = sender;
    receiver = receiver;
    service = sms;
    is_from_me = false;
    group_id = [];
    attachments = parts.attachments;
    is_audio_message = false;
    group_name = [];
    participants = recipients;
    effect_id = [];
    rich_link = none;
    thread_root = none;
    tapback = none;
  }

  abbrev incoming_from : IncomingSms → Option (ParsedUri × ParsedUri × List ParsedUri) → List Effect
  incoming_from m none = []
  incoming_from m (some (sender, receiver, recipients)) =
      message (incoming_message m sender receiver recipients (sms_parts m.content)) ∷ []

  -- `handleIncomingSMS` on a decoded message.
  unfoldable pub receive_sms : IncomingSms → Run (List Effect)
  unfolding incoming_message
  receive_sms m = do
    destination ← read payload.destination_id
    returned (
        if not (is_plus_number destination.identifier)
        then []
        else elim (env.region_of destination.identifier) [
          | none ↦ []
          | some region ↦
              incoming_from m
                (parse_incoming_mms_participants env.locale region m.sender m.receiver m.recipients)
        ])

  -- `handleIncomingSMS`, `handleIncomingMMS` and `handleReflectedSMS` on the decompressed body.
  unfoldable pub handle_incoming_sms : Bytes → Run (List Effect)
  handle_incoming_sms body = elim (env.sms_of body) [ none ↦ returned [] | some m ↦ receive_sms m ]

  unfoldable pub handle_incoming_mms : Bytes → Run (List Effect)
  handle_incoming_mms body = elim (env.mms_of body) [
    | none ↦ returned []
    | some m ↦ elim (env.download m.download_url m.object_id m.signature m.encryption_key) [
      | none ↦ returned []
      | some content ↦ handle_incoming_sms content
    ]
  ]

  unfoldable pub handle_reflected_sms : Bytes → Run (List Effect)
  handle_reflected_sms body = elim (env.reflected_of body) [
    | none ↦ returned []
    | some m ↦ reflect m
  ]

  -- `handleDeleteSync`, `handleMarkUnread` and `handleIMessageSMSEnableRequestCode`.
  unfoldable pub handle_delete_sync : Bytes → Run (List Effect)
  handle_delete_sync body = elim (env.deleted_of body) [
    | none ↦ returned []
    | some chats ↦ deleted_chats chats
  ]

  unfoldable pub handle_mark_unread : Bytes → Run (List Effect)
  handle_mark_unread body = elim (env.unread_of body) [
    | none ↦ returned []
    | some id ↦ returned (mark_unread id ∷ [])
  ]

  unfoldable pub handle_sms_enable_request_code : Bytes → Run (List Effect)
  handle_sms_enable_request_code body = elim (env.request_code_of body) [
    | none ↦ returned []
    | some code ↦ returned (sms_enable_request_code code ∷ [])
  ]
