-- ===== src/Receive.antt =====
-- Incoming messages: imessage/imessage/direct/imessage.go and imessage/struct.go, the structures that
-- imessage/imessage/direct/decrypt.go reads and makes. Times are numbers; what is only logged, and
-- fields that no modelled code reads, are left out.
pub mod Text
pub mod Participants
pub mod Parts
pub mod Imessage
pub mod Wire
pub mod Group
pub mod Sms
pub mod Dispatch
pub mod Stops
use imessage_for_me.Base.{ℕ, zero, suc, Bool, List, Option, Bytes}
pub use imessage_for_me.Base.Int.{ℤ, pos, negsuc}
use imessage_for_me.Uri.{ParsedUri}
use imessage_for_me.Uri.Identifier.{Locale}
use imessage_for_me.Tapback.{Tapback, Parsers}
use imessage_for_me.Balloon.{RichLinkMetadata}
use imessage_for_me.Balloon.Handlers.{BalloonLibraries}
use imessage_for_me.Edits.{Nodes}

pub record MessagePartInfo : Type 0 where
  pub part_id : ℤ
  pub start_index : ℤ
  pub length : ℤ

pub record Downloader : Type 0 where
  pub url : Bytes
  pub owner : Bytes
  pub signature : Bytes
  pub key : Bytes

-- `Attachment`: its bytes are inline or behind a downloader.
pub record Attachment : Type 0 where
  pub part_info : MessagePartInfo
  pub downloader : Option Downloader
  pub inline_data : Option Bytes
  pub file_size : ℤ
  pub file_name : Bytes
  pub mime_type : Bytes
  pub uti_type : Bytes

-- `ParsedThreadRoot`.
pub record ParsedThreadRoot : Type 0 where
  pub part_info : MessagePartInfo
  pub id : Bytes

pub data Service : Type 0 where
  imessage sms : Service

-- A tapback with its part information.
pub record TargetedTapback : Type 0 where
  pub tapback : Tapback
  pub part_info : MessagePartInfo

-- `Message` of struct.go.
pub record Message : Type 0 where
  pub id : Bytes
  pub time : ℕ
  pub subject : Bytes
  pub text : Bytes
  pub html : Bytes
  pub text_part : Option MessagePartInfo
  pub chat : ParsedUri
  pub sender : ParsedUri
  pub receiver : ParsedUri
  pub service : Service
  pub is_from_me : Bool
  pub group_id : Bytes
  pub attachments : List Attachment
  pub is_audio_message : Bool
  pub group_name : Bytes
  pub participants : List ParsedUri
  pub effect_id : Bytes
  pub rich_link : Option RichLinkMetadata
  pub thread_root : Option ParsedThreadRoot
  pub tapback : Option TargetedTapback

pub record MessageEdit : Type 0 where
  pub sender : ParsedUri
  pub is_from_me : Bool
  pub timestamp : ℕ
  pub edit_message_id : Bytes
  pub edit_part_index : ℤ
  pub text : Bytes
  pub edit_id : Bytes
  pub rich_link : Option RichLinkMetadata

pub record MessageUnsend : Type 0 where
  pub sender : ParsedUri
  pub is_from_me : Bool
  pub timestamp : ℕ
  pub unsend_message_id : Bytes
  pub unsend_part_index : ℤ
  pub unsend_id : Bytes

pub record GroupInfoChange : Type 0 where
  pub id : Bytes
  pub properties_version : ℤ
  pub group_id : Bytes
  pub chat : ParsedUri
  pub time : ℕ
  pub sender : ParsedUri
  pub is_from_me : Bool
  pub old_name : Bytes
  pub new_name : Bytes
  pub old_participants : List ParsedUri
  pub new_participants : List ParsedUri
  pub remove_avatar : Bool
  pub avatar_file_transfer_guid : Option Bytes
  pub new_avatar : Option Downloader

-- The fields of `SendMessagePayload` (apns/sendmessagepayload.go) that decrypt.go and
-- `handleAPNSMessage` read, and the test of its topic. A pointer that is nil is none.
pub record SendMessagePayload : Type 0 where
  pub encryption_type : Bytes
  pub payload : Bytes
  pub message_uuid : Bytes
  pub command : ℕ
  pub original_command : ℕ
  pub timestamp : Option ℕ
  pub sender_id : Option ParsedUri
  pub token : Bytes
  pub destination_id : Option ParsedUri
  pub expiration_seconds : Option ℤ
  pub is_on_ids_topic : Bool

-- `SMSForwarding` of ids/user.go, and what decrypt.go reads of the user.
pub record SmsForwarding : Type 0 where
  pub token : Bytes
  pub handle : ParsedUri

pub record User : Type 0 where
  pub handles : List ParsedUri
  pub has_auth_certs : Bool
  pub sms_forwarding : Option SmsForwarding

-- What the handlers hand to `EventHandler`, and the two things that they start on their own.
pub data Effect : Type 0 where
  message : Message → Effect
  edit : MessageEdit → Effect
  unsend : MessageUnsend → Effect
  group_info_change : GroupInfoChange → Effect
  chat_deleted : ParsedUri → Effect
  mark_unread : Bytes → Effect
  read_receipt : ParsedUri → Bool → Bytes → ℕ → Effect
  typing_notification : ParsedUri → Bool → Effect
  sms_enable_request_code : ℤ → Effect
  sms_forwarding_toggled : Effect
  config_updated : Effect
  send_failed : Bytes → ℕ → Effect
  invalid_signature : Effect
  broadcasts_handle : ParsedUri → List ParsedUri → Effect
  sends_read_receipt : ParsedUri → Bytes → Effect
  invalidates : ParsedUri → ParsedUri → Effect
  registers_again : Effect
  handles_delivered : Effect
  handles_ack : Effect

-- `BaloonPayloadDownloadInfo`.
pub record DownloadInfo : Type 0 where
  pub decryption_key : Bytes
  pub owner : Bytes
  pub url : Bytes
  pub signature : Bytes

-- `IMessage` of imessage.go.
pub record IMessage : Type 0 where
  pub subject : Bytes
  pub text : Bytes
  pub xml : Bytes
  pub participants : List ParsedUri
  pub group_id : Bytes
  pub effect_id : Bytes
  pub tapback_type : ℕ
  pub tapback_target_full_id : Bytes
  pub tapback_target_start_index : Option ℤ
  pub tapback_target_length : ℤ
  pub thread_root : Bytes
  pub group_name : Bytes
  pub balloon_id : Bytes
  pub balloon_payload : Bytes
  pub balloon_info : Option DownloadInfo
  pub inline_attachment_0 : Option Bytes
  pub is_audio_message : Bool

-- `UploadedAttachment` of ids/mmcs.go, `MessagePart` of struct.go and `AttachmentMessageXML`.
pub record UploadedAttachment : Type 0 where
  pub mime_type : Bytes
  pub name : Bytes
  pub uti_type : Bytes
  pub file_size : ℤ
  pub message_part : ℤ
  pub inline_attachment : Bytes
  pub mmcs_signature_hex : Bytes
  pub decryption_key : Bytes
  pub mmcs_url : Bytes
  pub mmcs_owner : Bytes

pub record MessagePart : Type 0 where
  pub part_idx : ℤ
  pub value : Bytes

pub record AttachmentMessageXml : Type 0 where
  pub attachments : List UploadedAttachment
  pub text : List MessagePart
  pub objects : List Bytes
