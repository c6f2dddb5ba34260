-- ===== src/Receive/Parts.antt =====
-- The parts of an incoming message, in imessage/imessage/direct/decrypt.go: attachments and texts with
-- the places that they take in the message.
pub mod Placed
pub mod Whole
use imessage_for_me.Base.{
  ℕ, zero, suc, ◌+◌, Bool, true, false, not, ◌&&◌, ◌||◌, List, [], ◌∷◌, ◌++◌, Option, none, some,
  Bytes, codes, equal, ltb, ◌==◌, if◌then◌else◌, length, is_nil,
}
use imessage_for_me.Receive.{
  ℤ, pos, negsuc, MessagePartInfo, Downloader, Attachment, IMessage, UploadedAttachment,
  MessagePart, AttachmentMessageXml,
}
use imessage_for_me.Receive.Wire.{SmsChunk, Libraries}
use imessage_for_me.Receive.Text.{text_len, decode_hex}

-- `GetInlineAttachment` of an iMessage.
unfoldable pub get_inline_attachment : IMessage → Bytes → Option Bytes
get_inline_attachment m name = if equal name (codes "ia-0") then m.inline_attachment_0 else none

-- The attachment that `convertAttachment` starts with, at its index in the message.
abbrev started : ℕ → UploadedAttachment → Attachment
started i att = record {
  part_info = record { part_id = att.message_part; start_index = pos i; length = pos 1 };
  downloader = none;
  inline_data = none;
  file_size = att.file_size;
  file_name = att.name;
  mime_type = att.mime_type;
  uti_type = att.uti_type;
}

abbrev inlined : ℕ → UploadedAttachment → Option Bytes → Option Attachment
inlined i att none = none
inlined i att (some content) = some (record (started i att) { inline_data = some content })

abbrev remote : ℕ → UploadedAttachment → Option Bytes → Option Bytes → Option Attachment
remote i att (some signature) (some key) =
    let d : Downloader = record {
      url = att.mmcs_url;
      owner = att.mmcs_owner;
      signature = signature;
      key = key;
    } in
    some (record (started i att) { downloader = some d })
remote i att s k = none

-- `convertAttachment`; nothing with an error.
unfoldable pub convert_attachment :
    (Bytes → Option Bytes) → ℕ → UploadedAttachment → Option Attachment
convert_attachment inline i att =
    if not (is_nil att.inline_attachment)
    then inlined i att (inline att.inline_attachment)
    else remote i att (decode_hex att.mmcs_signature_hex) (decode_hex att.decryption_key)

-- The default MIME type of voice messages.
abbrev pub with_mime_type : Attachment → Attachment
with_mime_type a =
    if equal a.uti_type (codes "com.apple.coreaudio-format") && is_nil a.mime_type
    then record a { mime_type = codes "audio/x-caf" }
    else a

-- What the loop over the attachments of an iMessage has: those that were converted, and the last one
-- that was not.
pub record Converted : Type 0 where
  pub attachments : List Attachment
  pub refused : Option UploadedAttachment

abbrev take_in : Converted → UploadedAttachment → Option Attachment → Converted
take_in c att none = record c { refused = some att }
take_in c att (some a) = record c { attachments = c.attachments ++ with_mime_type a ∷ [] }

unfoldable pub convert_loop :
    (Bytes → Option Bytes) → ℕ → List UploadedAttachment → Converted → Converted
convert_loop inline i [] c = c
convert_loop inline i (att ∷ atts) c =
    convert_loop inline (suc i) atts (take_in c att (convert_attachment inline i att))

-- The loop over the texts of an iMessage: the last one is reported.
unfoldable pub text_loop :
    (Bytes → Bytes) → ℕ → List MessagePart → Option MessagePartInfo → Option MessagePartInfo
text_loop reverse index [] part = part
text_loop reverse index (t ∷ ts) part =
    let n = text_len (reverse t.value) in
    text_loop reverse (index + n) ts
      (some (record { part_id = t.part_idx; start_index = pos index; length = pos n }))

-- What the markup of an iMessage comes to.
pub record XmlParts : Type 0 where
  pub text : Bytes
  pub text_part : Option MessagePartInfo
  pub attachments : List Attachment

-- The part of a text that is the whole message.
abbrev pub whole : ℕ → MessagePartInfo
whole n = record { part_id = pos 0; start_index = pos 0; length = pos n }

abbrev failure_text : Bytes → Bytes → Bytes
failure_text error text = codes "Failed to download image: " ++ (error ++ 10 ∷ 10 ∷ text)

-- The text U+FFFD, and the one breadcrumb that stands in for it.
abbrev breadcrumb : Bytes → List Bytes → Option Bytes
breadcrumb text (b ∷ []) =
    if equal text (0xef ∷ 0xbf ∷ 0xbd ∷ []) && not (is_nil b) then some b else none
breadcrumb text bs = none

abbrev with_breadcrumb : Bytes → Option Bytes → Bytes × Option MessagePartInfo
with_breadcrumb text none = (text, none)
with_breadcrumb text (some b) = (b, some (whole 1))

abbrev after_loop :
    Libraries
    → List MessagePart
    → Bytes × Option MessagePartInfo
    → List Attachment
    → Option UploadedAttachment
    → XmlParts
after_loop env texts (text, part) atts (some refused) = record {
  text = failure_text (env.error_text refused) text;
  text_part = part;
  attachments = [];
}
after_loop env texts (text, part) atts none = record {
  text = text;
  text_part = text_loop env.reverse_text_to_html (length atts) texts part;
  attachments = atts;
}

abbrev nothing_converted : Converted
nothing_converted = record { attachments = []; refused = none }

-- The block for messages with markup.
unfoldable pub xml_parts : Libraries → IMessage → AttachmentMessageXml → XmlParts
xml_parts env m xml =
    let c = convert_loop (get_inline_attachment m) 0 xml.attachments nothing_converted in
    after_loop env xml.text (with_breadcrumb m.text (breadcrumb m.text xml.objects)) c.attachments
      c.refused

-- The parts of an iMessage; nothing where its markup cannot be read.
unfoldable pub imessage_parts : Libraries → IMessage → Option XmlParts
imessage_parts env m =
    if is_nil m.xml
    then some (record { text = m.text; text_part = none; attachments = [] })
    else elim (env.xml_of m.xml) [ none ↦ none | some xml ↦ some (xml_parts env m xml) ]

abbrev is_text : SmsChunk → Bool
is_text chunk = equal chunk.type (codes "text/plain")

abbrev is_attachment : SmsChunk → Bool
is_attachment chunk = not (is_text chunk) && not (equal chunk.type (codes "application/smil"))

abbrev chunk_attachment : ℕ → ℕ → SmsChunk → Attachment
chunk_attachment i start chunk = record {
  part_info = record { part_id = pos i; start_index = pos start; length = pos 1 };
  downloader = none;
  inline_data = some chunk.content;
  file_size = pos (length chunk.content);
  file_name = chunk.content_location;
  mime_type = chunk.type;
  uti_type = [];
}

abbrev chunk_text : ℕ → ℕ → SmsChunk → MessagePartInfo
chunk_text i start chunk = record {
  part_id = pos i;
  start_index = pos start;
  length = pos (text_len chunk.content);
}

-- The loop of `handleIncomingSMS` over the parts of a text message, from a part and a place on.
unfoldable pub sms_loop : ℕ → ℕ → List SmsChunk → XmlParts → XmlParts
sms_loop i start [] out = out
sms_loop i start (chunk ∷ chunks) out =
    let on_text =
      sms_loop (suc i) (start + text_len chunk.content) chunks
        (record out { text = chunk.content; text_part = some (chunk_text i start chunk) }) in
    let on_attachment =
      sms_loop (suc i) (start + 1) chunks
        (record out { attachments = out.attachments ++ chunk_attachment i start chunk ∷ [] }) in
    let on_other = sms_loop (suc i) start chunks out in
    if is_text chunk then on_text else if is_attachment chunk then on_attachment else on_other

unfoldable pub sms_parts : List SmsChunk → XmlParts
sms_parts chunks = sms_loop 0 0 chunks (record { text = []; text_part = none; attachments = [] })
