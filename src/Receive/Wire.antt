-- ===== src/Receive/Wire.antt =====
-- The other structures of imessage/imessage/direct/imessage.go that are decoded from incoming
-- payloads, and what decrypt.go takes from elsewhere. A failed call is none.
use imessage_for_me.Base.{ℕ, Bool, List, Option, Bytes}
use imessage_for_me.Uri.Identifier.{Locale}
use imessage_for_me.Tapback.{Parsers}
use imessage_for_me.Balloon.Handlers.{BalloonLibraries}
use imessage_for_me.Edits.{Nodes}
use imessage_for_me.Receive.{ℤ, IMessage, UploadedAttachment, AttachmentMessageXml}

pub record SmsChunk : Type 0 where
  pub content : Bytes
  pub type : Bytes
  pub content_location : Bytes

-- `SMS`.
pub record IncomingSms : Type 0 where
  pub receiver : Bytes
  pub sender : Bytes
  pub message_uuid : Bytes
  pub timestamp : ℕ
  pub content : List SmsChunk
  pub subject : Bytes
  pub recipients : List Bytes

pub record AsyncMessage : Type 0 where
  pub object_id : Bytes
  pub signature_hex : Bytes
  pub download_url : Bytes

pub record IncomingMms : Type 0 where
  pub encryption_key : Bytes
  pub object_id : Bytes
  pub download_url : Bytes
  pub signature : Bytes

-- `ReflectedSMS` with its data; a recipient is its international number.
pub record ReflectedSms : Type 0 where
  pub recipients : List Bytes
  pub guid : Bytes
  pub handle : Bytes
  pub plain_body : Bytes
  pub subject : Bytes
  pub xhtml : Bytes

-- `IMFileTransfer`.
pub record FileTransfer : Type 0 where
  pub guid : Bytes
  pub decryption_key : Bytes
  pub mmcs_owner : Bytes
  pub mmcs_signature_hex : Bytes
  pub mmcs_url : Bytes

pub record IMessageGroupMetaChange : Type 0 where
  pub group_id : Bytes
  pub properties_version : ℤ
  pub type : Bytes
  pub new_group_avatar : Option FileTransfer
  pub participants : List Bytes
  pub target_participants : List Bytes
  pub new_group_name : Bytes
  pub old_group_name : Bytes

pub record IMessageEdit : Type 0 where
  pub edit_message_id : Bytes
  pub edit_xml : Bytes
  pub edit_part_index : ℤ
  pub edit_type : ℕ

pub record SmsForwardingToggled : Type 0 where
  pub ar : Bool
  pub ue : Bool
  pub ud : Bool
  pub g : Option Bytes

-- `DeletedChat`; the text of its group ID.
pub record DeletedChat : Type 0 where
  pub group_id : Bytes
  pub guid : Bytes

-- The libraries that decode property lists and XML, read phone numbers, hash and scan, and the
-- download of an attachment by its URL, owner, signature and key. `error_text` is the text of the error
-- that `convertAttachment` returns for an attachment.
pub record Libraries : Type 0 where
  pub locale : Locale
  pub tapbacks : Parsers
  pub balloons : BalloonLibraries
  pub archive_calls : ℕ
  pub parse_html : Bytes → Option Nodes
  pub xml_of : Bytes → Option AttachmentMessageXml
  pub reverse_text_to_html : Bytes → Bytes
  pub scan_thread_root : Bytes → Option (ℤ × ℤ × ℤ × Bytes)
  pub parse_uuid : Bytes → Option Bytes
  pub sha256_base64url : Bytes → Bytes
  pub region_of : Bytes → Option Bytes
  pub error_text : UploadedAttachment → Bytes
  pub download : Bytes → Bytes → Bytes → Bytes → Option Bytes
  pub is_map : Bytes → Bool
  pub imessage_of : Bytes → Option IMessage
  pub edit_of : Bytes → Option IMessageEdit
  pub group_change_of : Bytes → Option IMessageGroupMetaChange
  pub request_code_of : Bytes → Option ℤ
  pub toggle_of : Bytes → Option SmsForwardingToggled
  pub mms_of : Bytes → Option IncomingMms
  pub async_of : Bytes → Option AsyncMessage
  pub sms_of : Bytes → Option IncomingSms
  pub reflected_of : Bytes → Option ReflectedSms
  pub deleted_of : Bytes → Option (List DeletedChat)
  pub unread_of : Bytes → Option Bytes
