-- ===== src/Tests/Incoming.antt =====
-- Incoming messages, with libraries that read next to nothing.
use imessage_for_me.Base.{◌≡◌, ◌⊎◌, refl, true, false, [], ◌∷◌, List, none, some, Bytes, codes}
use imessage_for_me.Uri.{
  ParsedUri, mailto, ok, err, invalid_uri, cut, parse_uri, is_plus_number, is_short_number,
  is_valid_alphanumeric_sender, is_only_numbers,
}
use imessage_for_me.Uri.Identifier.{
  allow, is_uuid, parse_identifier, parse_identifier_in, parse_identifier_with_local_numbers,
  parsed_identifier, bare_identifier,
}
use mathlib.Core.List.Permᴰ
use imessage_for_me.Balloon.Handlers.{not_gzip}
use imessage_for_me.Receive.{
  SendMessagePayload, User, IMessage, UploadedAttachment, AttachmentMessageXml, pos,
}
use imessage_for_me.Receive.Wire.{Libraries, ReflectedSms, SmsChunk}
use imessage_for_me.Receive.Participants.{
  parse_incoming_sms_forward, parse_all, parse_incoming_mms_participants,
  parse_reflected_mms_participants,
}
use imessage_for_me.Receive.Participants.Members.{IsJoined, parse_incoming_mms_participants_lem}
use imessage_for_me.Receive.Participants.Chats.{parse_reflected-perm}
use imessage_for_me.Receive.Parts.{xml_parts, sms_parts}
use imessage_for_me.Receive.Parts.Whole.{AllTaken, NoneTaken, xml_parts_lem}
use imessage_for_me.Receive.Parts.Placed.{IsLaidOut, sms_parts-IsLaidOut}
use imessage_for_me.Receive.Imessage.{handle_imessage}
use imessage_for_me.Receive.Imessage.Addressed.{Emits, Reported, handle_imessage-Reported}
use imessage_for_me.Receive.Sms.{reflect}
use imessage_for_me.Receive.Sms.Reflected.{IsMisaddressed, reflect-IsMisaddressed}
use imessage_for_me.Receive.Dispatch.{Cryptography}

abbrev mail : Bytes → ParsedUri
mail s = record { scheme = mailto; identifier = s }

abbrev anna : ParsedUri
anna = mail (codes "a@b.c")

abbrev bert : ParsedUri
bert = mail (codes "b@b.c")

abbrev hello : IMessage
hello = record {
  subject = [];
  text = codes "hello";
  xml = [];
  participants = anna ∷ bert ∷ [];
  group_id = [];
  effect_id = [];
  tapback_type = 0;
  tapback_target_full_id = [];
  tapback_target_start_index = none;
  tapback_target_length = pos 0;
  thread_root = [];
  group_name = [];
  balloon_id = [];
  balloon_payload = [];
  balloon_info = none;
  inline_attachment_0 = none;
  is_audio_message = false;
}

abbrev markup : AttachmentMessageXml
markup = record { attachments = []; text = []; objects = [] }

-- Every body is the same message, and every text the same markup.
abbrev simple : Libraries
simple = record {
  locale = record { to_lower = λ s. s; national_e164 = λ s region. none };
  tapbacks = record { parse_uuid = λ s. s; atoi = λ s. none };
  balloons = record {
    gunzip = λ s. not_gzip;
    archive_of = λ s. none;
    balloon_payload_of = λ s. none;
    fetch = λ s. none;
  };
  archive_calls = 0;
  parse_html = λ s. none;
  xml_of = λ s. some markup;
  reverse_text_to_html = λ s. s;
  scan_thread_root = λ s. none;
  parse_uuid = λ s. none;
  sha256_base64url = λ s. s;
  region_of = λ s. none;
  error_text = λ a. codes "refused";
  download = λ url owner signature key. some url;
  is_map = λ s. true;
  imessage_of = λ s. some hello;
  edit_of = λ s. none;
  group_change_of = λ s. none;
  request_code_of = λ s. none;
  toggle_of = λ s. none;
  mms_of = λ s. none;
  async_of = λ s. some (record { object_id = []; signature_hex = []; download_url = codes "url" });
  sms_of = λ s. none;
  reflected_of = λ s. none;
  deleted_of = λ s. none;
  unread_of = λ s. none;
}

abbrev own : User
own = record { handles = anna ∷ []; has_auth_certs = true; sms_forwarding = none }

-- An asynchronous message from Bert to Anna.
abbrev incoming : SendMessagePayload
incoming = record {
  encryption_type = codes "pair";
  payload = codes "body";
  message_uuid = [];
  command = 104;
  original_command = 100;
  timestamp = some 7;
  sender_id = some bert;
  token = [];
  destination_id = some anna;
  expiration_seconds = none;
  is_on_ids_topic = false;
}

handle_imessage-Reported_example :
    Emits (Reported own incoming hello) (handle_imessage simple own incoming [])
handle_imessage-Reported_example = handle_imessage-Reported simple own incoming [] hello refl

-- A cipher that leaves everything as it is.
abbrev clear : Cryptography Bytes
clear = record {
  parse_body = λ s. some s;
  verifies = λ to from token b. true;
  decrypt = λ b. some b;
}

abbrev picture : UploadedAttachment
picture = record {
  mime_type = codes "image/png";
  name = codes "x.png";
  uti_type = [];
  file_size = pos 5;
  message_part = pos 0;
  inline_attachment = codes "other";
  mmcs_signature_hex = [];
  decryption_key = [];
  mmcs_url = [];
  mmcs_owner = [];
}

abbrev pictures : AttachmentMessageXml
pictures = record { attachments = picture ∷ []; text = []; objects = [] }

xml_parts_lem_example :
    AllTaken simple hello pictures (xml_parts simple hello pictures)
    ⊎ NoneTaken simple hello pictures (xml_parts simple hello pictures)
xml_parts_lem_example = xml_parts_lem simple hello pictures

abbrev chunks : List SmsChunk
chunks =
    record { content = codes "hi"; type = codes "text/plain"; content_location = [] }
    ∷ record { content = codes "png"; type = codes "image/png"; content_location = codes "x.png" }
    ∷ []

sms_parts-IsLaidOut_example : IsLaidOut chunks (sms_parts chunks)
sms_parts-IsLaidOut_example = sms_parts-IsLaidOut chunks

anna_read :
    parse_identifier_with_local_numbers simple.locale (codes "a@b.c") parse_incoming_sms_forward []
    ≡ ok anna
unfolding parse_identifier_with_local_numbers parse_identifier_in parsed_identifier bare_identifier
    parse_uri cut allow is_uuid
anna_read = refl

bert_read :
    parse_identifier_with_local_numbers simple.locale (codes "b@b.c") parse_incoming_sms_forward []
    ≡ ok bert
unfolding parse_identifier_with_local_numbers parse_identifier_in parsed_identifier bare_identifier
    parse_uri cut allow is_uuid
bert_read = refl

both_read :
    parse_all
      (λ t. parse_identifier_with_local_numbers simple.locale t parse_incoming_sms_forward [])
      (codes "a@b.c" ∷ codes "b@b.c" ∷ [])
    ≡ some (anna ∷ bert ∷ [])
unfolding parse_all
both_read = rw anna_read (rw bert_read refl)

parse_incoming_mms_participants_lem_example :
    (ps : List ParsedUri) × (parse_incoming_mms_participants simple.locale []
        (codes "b@b.c")
        (codes "a@b.c")
        (codes "a@b.c" ∷ codes "b@b.c" ∷ [])
      ≡ some (bert, anna, ps))
    × IsJoined bert anna (anna ∷ bert ∷ []) ps
parse_incoming_mms_participants_lem_example =
    parse_incoming_mms_participants_lem simple.locale [] (codes "b@b.c") (codes "a@b.c")
      (codes "a@b.c" ∷ codes "b@b.c" ∷ []) bert anna (anna ∷ bert ∷ []) bert_read anna_read
      both_read

both_recipients :
    parse_all
      (λ s. parse_identifier simple.locale s parse_incoming_sms_forward)
      (codes "a@b.c" ∷ codes "b@b.c" ∷ [])
    ≡ some (anna ∷ bert ∷ [])
unfolding parse_all parse_identifier parse_identifier_in parsed_identifier bare_identifier parse_uri
    cut allow is_uuid
both_recipients = refl

parse_reflected-perm_example :
    parse_reflected_mms_participants simple.locale (λ s. s) (codes "b@b.c" ∷ codes "a@b.c" ∷ [])
    ≡ parse_reflected_mms_participants simple.locale (λ s. s) (codes "a@b.c" ∷ codes "b@b.c" ∷ [])
parse_reflected-perm_example =
    parse_reflected-perm simple.locale (λ s. s) (codes "a@b.c" ∷ codes "b@b.c" ∷ [])
      (codes "b@b.c" ∷ codes "a@b.c" ∷ []) (anna ∷ bert ∷ []) ∣ Permᴰ.swap refl refl ∣₁
      both_recipients

-- A reflected message whose handle is no address.
abbrev nowhere : ReflectedSms
nowhere = record {
  recipients = [];
  guid = codes "1";
  handle = codes "?";
  plain_body = codes "hi";
  subject = [];
  xhtml = codes "markup";
}

nowhere_unread :
    parse_identifier simple.locale (codes "?") parse_incoming_sms_forward ≡ err invalid_uri
unfolding parse_identifier parse_identifier_in parsed_identifier bare_identifier parse_uri cut allow
    is_uuid is_plus_number is_short_number is_valid_alphanumeric_sender is_only_numbers
nowhere_unread = refl

reflect-IsMisaddressed_example :
    IsMisaddressed nowhere invalid_uri (reflect simple incoming nowhere)
reflect-IsMisaddressed_example =
    reflect-IsMisaddressed simple incoming nowhere invalid_uri refl nowhere_unread markup 7 bert
      refl refl refl refl
