-- ===== src/Receive/Sms/Reflected.antt =====
-- Reflected text messages whose participants cannot be parsed.
use imessage_for_me.Base.{ℕ, ◌≡◌, refl, true, false, List, [], ◌∷◌, some, ltb, length, is_nil}
use imessage_for_me.Apns.Payload.{Run, returned}
use imessage_for_me.Uri.{ParsedUri, UriError, err}
use imessage_for_me.Uri.Identifier.{parse_identifier}
use imessage_for_me.Receive.{Message, SendMessagePayload, Effect, message, AttachmentMessageXml}
use imessage_for_me.Receive.Wire.{ReflectedSms, Libraries}
use imessage_for_me.Receive.Participants.{parse_incoming_sms_forward, parsed_with_error, with_error}
use imessage_for_me.Receive.Sms.{
  reflected_chat, reflected_message, reflect_loop, nothing_reflected, reflect,
}

-- One message is reported, to the chat of the URI that came with the error.
pub record IsMisaddressed (m : ReflectedSms) (e : UriError) (r : Run (List Effect)) : Type 0 where
  pub msg : Message
  pub is_reported : r ≡ returned (message msg ∷ [])
  pub is_to : msg.chat ≡ with_error m.handle e

module _ (env : Libraries) (payload : SendMessagePayload) (m : ReflectedSms) (e : UriError)
    (few : ltb 1 (length m.recipients) ≡ false)
    (unread : parse_identifier env.locale m.handle parse_incoming_sms_forward ≡ err e) where
  -- A reflected message to one person whose handle cannot be parsed is dropped if it has no markup.
  pub reflect_dropped : is_nil m.xhtml ≡ true → reflect env payload m ≡ returned []
  unfolding reflect reflected_chat parsed_with_error
  reflect_dropped plain = rw plain (rw few (rw (unread, parsed_with_error) refl))

  -- A reflected message to one person whose handle cannot be parsed is reported all the same if it has
  -- markup that can be read: reading the markup replaces the error. Its chat is what the parser
  -- returned with the error, mostly the empty URI.
  pub reflect-IsMisaddressed :
      (xml : AttachmentMessageXml) (time : ℕ) (sender : ParsedUri)
      → is_nil m.xhtml ≡ false
      → env.xml_of m.xhtml ≡ some xml
      → payload.timestamp ≡ some time
      → payload.sender_id ≡ some sender
      → IsMisaddressed m e (reflect env payload m)
  unfolding reflect reflected_chat parsed_with_error
  reflect-IsMisaddressed xml time sender marked read_xml t s = record {
    msg =
        reflected_message env payload m (with_error m.handle e ∷ [], with_error m.handle e)
          (reflect_loop xml.attachments nothing_reflected) time sender;
    is_reported =
        rw marked (rw read_xml (rw t (rw s (rw few (rw (unread, parsed_with_error) refl)))));
    is_to = refl;
  }
