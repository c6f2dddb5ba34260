-- ===== src/Receive/Dispatch/Ended.antt =====
-- The handling of an incoming payload comes to an end.
use imessage_for_me.Base.{
  ℕ, zero, suc, ◌≡◌, ◌≤◌, Bool, true, not, ◌&&◌, ◌||◌, List, [], ◌∷◌, Option, none, some, Bytes,
  codes, equal, ◌==◌, if◌then◌else◌, if_elim, arith, is_nil, is_some,
}
use imessage_for_me.Apns.Payload.{Run, returned, panicked, out_of_fuel}
use imessage_for_me.Archive.{parse_archive}
use imessage_for_me.Balloon.{Attempt, RichLinkMetadata}
use imessage_for_me.Balloon.Handlers.{maybe_gunzip}
use imessage_for_me.Receive.{SendMessagePayload, User, Effect}
use imessage_for_me.Receive.Wire.{Libraries, DeletedChat, SmsForwardingToggled}
use imessage_for_me.Receive.Stops.{Stops, Stops-bind, Stops-ne, Stops-elim}
use imessage_for_me.Receive.Imessage.{get_rich_link}
use imessage_for_me.Receive.Imessage.Stopped.{get_rich_link-Stops, handle_imessage-Stops}
use imessage_for_me.Receive.Group.{
  change_chat, preview_edit, handle_link_preview_edit, handle_imessage_edit,
  handle_imessage_group_meta,
}
use imessage_for_me.Receive.Sms.{
  toggle, deleted_chat, deleted_chats, reflect, receive_sms, handle_incoming_sms,
  handle_incoming_mms, handle_reflected_sms, handle_delete_sync, handle_mark_unread,
  handle_sms_enable_request_code,
}
use imessage_for_me.Receive.Dispatch.{
  Cryptography, imessage_async, Handled, after, with_user, toggled, decrypt_message, unwrapped,
  async_body, handle_command, decrypted, with_body, handle_encrypted_apns_message, handle_read,
  handle_typing, invalidate, encrypted_commands, member, calls, unknown, by_command,
  handle_apns_message,
}

-- A handler that takes no download apart and runs no archive: its cases are all there is to see.
module _ (env : Libraries) (user : User) (p : SendMessagePayload) where
  edit-Stops : (body : Bytes) → Stops (handle_imessage_edit env user p body)
  unfolding handle_imessage_edit
  edit-Stops body =
      Stops-ne _ λ (e : handle_imessage_edit env user p body ≡ out_of_fuel). ground (arith, e)

  group-Stops : (body : Bytes) → Stops (handle_imessage_group_meta env user p body)
  unfolding handle_imessage_group_meta change_chat
  group-Stops body =
      Stops-ne _ λ (e : handle_imessage_group_meta env user p body ≡ out_of_fuel). ground (arith, e)

  toggle-Stops : (evt : SmsForwardingToggled) → Stops (toggle user p evt)
  unfolding toggle
  toggle-Stops evt = Stops-ne _ λ (e : toggle user p evt ≡ out_of_fuel). ground (arith, e)

  reflect-Stops : (body : Bytes) → Stops (handle_reflected_sms env p body)
  unfolding handle_reflected_sms reflect
  reflect-Stops body =
      Stops-ne _ λ (e : handle_reflected_sms env p body ≡ out_of_fuel). ground (arith, e)

  sms-Stops : (body : Bytes) → Stops (handle_incoming_sms env p body)
  unfolding handle_incoming_sms receive_sms
  sms-Stops body =
      Stops-ne _ λ (e : handle_incoming_sms env p body ≡ out_of_fuel). ground (arith, e)

  mms-Stops : (body : Bytes) → Stops (handle_incoming_mms env p body)
  unfolding handle_incoming_mms
  mms-Stops body = Stops-elim (env.mms_of body) [] _ λ m.
      Stops-elim (env.download m.download_url m.object_id m.signature m.encryption_key) [] _
        sms-Stops

  unread-Stops : (body : Bytes) → Stops (handle_mark_unread env p body)
  unfolding handle_mark_unread
  unread-Stops body =
      Stops-ne _ λ (e : handle_mark_unread env p body ≡ out_of_fuel). ground (arith, e)

  code-Stops : (body : Bytes) → Stops (handle_sms_enable_request_code env p body)
  unfolding handle_sms_enable_request_code
  code-Stops body =
      Stops-ne _ λ (e : handle_sms_enable_request_code env p body ≡ out_of_fuel). ground (arith, e)

deleted_chat-Stops : (c : DeletedChat) → Stops (deleted_chat c)
unfolding deleted_chat
deleted_chat-Stops c = Stops-ne _ λ (e : deleted_chat c ≡ out_of_fuel). ground (arith, e)

deleted_chats-Stops : (cs : List DeletedChat) → Stops (deleted_chats cs)
unfolding deleted_chats
deleted_chats-Stops [] = tt
deleted_chats-Stops (c ∷ cs) =
    Stops-bind (deleted_chat c) _ (deleted_chat-Stops c)
      λ e. Stops-bind (deleted_chats cs) _ (deleted_chats-Stops cs) λ es. tt

delete-Stops :
    (env : Libraries) (p : SendMessagePayload) (body : Bytes)
    → Stops (handle_delete_sync env p body)
unfolding handle_delete_sync
delete-Stops env p body = Stops-elim (env.deleted_of body) [] _ deleted_chats-Stops

with_user-Stops : (user : User) (r : Run (List Effect)) → Stops r → Stops (with_user user r)
with_user-Stops user (returned es) h = tt
with_user-Stops user panicked h = tt
with_user-Stops user out_of_fuel h = h

after-Stops : (es : List Effect) (r : Handled) → Stops r → Stops (after es r)
after-Stops es (returned (user, more)) h = tt
after-Stops es panicked h = tt
after-Stops es out_of_fuel h = h

decrypt_message-Stops :
    {B : Type 0} (c : Cryptography B) (p : SendMessagePayload) → Stops (decrypt_message c p)
unfolding decrypt_message
decrypt_message-Stops c p = Stops-ne _ λ (e : decrypt_message c p ≡ out_of_fuel). ground (arith, e)

invalidate-Stops : (user : Option User) (p : SendMessagePayload) → Stops (invalidate user p)
unfolding invalidate
invalidate-Stops user p = Stops-ne _ λ (e : invalidate user p ≡ out_of_fuel). ground (arith, e)

read-Stops : (user : Option User) (p : SendMessagePayload) → Stops (handle_read user p)
unfolding handle_read
read-Stops user p = Stops-ne _ λ (e : handle_read user p ≡ out_of_fuel). ground (arith, e)

typing-Stops : (user : Option User) (p : SendMessagePayload) → Stops (handle_typing user p)
unfolding handle_typing
typing-Stops user p = Stops-elim p.sender_id _ _ λ sender. tt

preview_edit-Stops :
    (env : Libraries) (user : User) (p : SendMessagePayload) (a : Attempt (Option RichLinkMetadata))
    → Stops (preview_edit env user p a)
unfolding preview_edit
preview_edit-Stops env user p a =
    Stops-ne _ λ (e : preview_edit env user p a ≡ out_of_fuel). ground (arith, e)

module _ {B C : Type 0} (env : Libraries) (pair : Cryptography B) (pair_ec : Cryptography C)
    (archives : (body : Bytes)
      → Stops (parse_archive env.archive_calls (env.balloons.archive_of body))) where
  preview-Stops :
      (user : User) (p : SendMessagePayload) (body : Bytes)
      → Stops (handle_link_preview_edit env user p body)
  unfolding handle_link_preview_edit
  preview-Stops user p body = Stops-elim (env.imessage_of body) [] _ λ m.
      Stops-bind (get_rich_link env m) _ (get_rich_link-Stops env archives m)
        (preview_edit-Stops env user p)

  toggled-Stops :
      (user : User) (p : SendMessagePayload) (body : Bytes)
      → Stops (toggled env pair pair_ec user p body)
  unfolding toggled
  toggled-Stops user p body =
      Stops-elim (env.toggle_of body) _ _
        λ evt. Stops-bind (toggle user p evt) _ (toggle-Stops env user p evt) λ r. tt

  handle_command-Stops :
      (user : User) (p : SendMessagePayload) (body : Bytes)
      → Stops (handle_command env pair pair_ec user p body)
  unfolding handle_command
  handle_command-Stops user p body =
      if_elim Stops (p.command == 100)
        (λ e. with_user-Stops user _ (handle_imessage-Stops env archives user p body))
        λ e.
          if_elim Stops (p.command == 118)
            (λ e. with_user-Stops user _ (edit-Stops env user p body))
            λ e.
              if_elim Stops (p.command == 190)
                (λ e. with_user-Stops user _ (group-Stops env user p body))
                λ e.
                  if_elim Stops (p.command == 142)
                    (λ e. with_user-Stops user _ (code-Stops env user p body))
                    λ e.
                      if_elim Stops (p.command == 145) (λ e. toggled-Stops user p body)
                        λ e.
                          if_elim Stops (p.command == 140)
                            (λ e. with_user-Stops user _ (sms-Stops env user p body))
                            λ e.
                              if_elim Stops (p.command == 141)
                                (λ e. with_user-Stops user _ (mms-Stops env user p body))
                                λ e.
                                  if_elim Stops (p.command == 143 || p.command == 144)
                                    (λ e. with_user-Stops user _ (reflect-Stops env user p body))
                                    λ e.
                                      if_elim Stops (p.command == 181)
                                        (λ e. with_user-Stops user _ (delete-Stops env p body))
                                        λ e.
                                          if_elim Stops (p.command == 111)
                                            (λ e.
                                              with_user-Stops user _ (unread-Stops env user p body))
                                            λ e.
                                              if_elim Stops (p.command == 196)
                                                (λ e.
                                                  with_user-Stops user _
                                                    (preview-Stops user p body))
                                                λ e. tt

  decrypted-Stops : (p : SendMessagePayload) → Stops (decrypted env pair pair_ec p)
  unfolding decrypted
  decrypted-Stops p =
      if_elim Stops (equal p.encryption_type (codes "pair")) (λ e. decrypt_message-Stops pair p)
        λ e.
          if_elim Stops (equal p.encryption_type (codes "pair-ec"))
            (λ e. decrypt_message-Stops pair_ec p) λ e. tt

  -- The calls that a payload needs.
  abbrev depth : ℕ → ℕ → ℕ
  depth command original =
      if command == imessage_async then (if original == imessage_async then 3 else 2) else 1

  with_body-Stops :
      (again : SendMessagePayload → Handled) (user : User) (p : SendMessagePayload)
      (body : Option Bytes)
      → ((p.command == imessage_async) ≡ true
          → (content : Bytes) → Stops (again (unwrapped p content)))
      → Stops (with_body env pair pair_ec again user p body)
  unfolding with_body
  with_body-Stops again user p none ends = tt
  with_body-Stops again user p (some encoded) ends =
      Stops-elim (maybe_gunzip env.balloons.gunzip encoded) _ _ λ body.
        if_elim Stops (not (env.is_map body)) (λ e. tt)
          λ e.
            if_elim Stops (p.command == imessage_async)
              (λ f.
                Stops-elim (async_body env pair pair_ec body) _
                  (λ content. again (unwrapped p content)) (ends f))
              λ f. handle_command-Stops user p body

  handle_encrypted-Stops :
      (fuel : ℕ) (user : Option User) (p : SendMessagePayload)
      → depth p.command p.original_command ≤ fuel
      → Stops (handle_encrypted_apns_message env pair pair_ec fuel user p)
  unfolding handle_encrypted_apns_message
  handle_encrypted-Stops zero user p h = absurd (ground (arith, h))
  handle_encrypted-Stops (suc fuel) none p h = tt
  handle_encrypted-Stops (suc fuel) (some user) p h =
      if_elim Stops (not user.has_auth_certs) (λ e. tt)
        λ e. Stops-bind (decrypted env pair pair_ec p) _ (decrypted-Stops p) λ r.
          after-Stops r.1 _ (
            with_body-Stops _ user p r.0 λ f content.
              handle_encrypted-Stops fuel (some user) (unwrapped p content) (ground (arith, h, f)))

  within_calls :
      (user : Option User) (p : SendMessagePayload)
      → Stops (handle_encrypted_apns_message env pair pair_ec calls user p)
  within_calls user p = handle_encrypted-Stops calls user p (ground arith)

  by_command-Stops :
      (traces : Bool) (user : Option User) (p : SendMessagePayload)
      → Stops (by_command env pair pair_ec traces user p)
  unfolding by_command unknown
  by_command-Stops traces user p =
      if_elim Stops (member p.command encrypted_commands) (λ e. within_calls user p)
        λ e.
          if_elim Stops (p.command == 130) (λ e. invalidate-Stops user p)
            λ e.
              if_elim Stops (p.command == 101) (λ e. tt)
                λ e.
                  if_elim Stops (p.command == 255) (λ e. tt)
                    λ e.
                      if_elim Stops (p.command == 102 || p.command == 147) (λ e. read-Stops user p)
                        λ e.
                          if_elim Stops (p.command == 160 || p.command == 120) (λ e. tt)
                            λ e.
                              if_elim Stops
                                ((equal p.encryption_type (codes "pair")
                                    || equal p.encryption_type (codes "pair-ec"))
                                  && not (is_nil p.payload)
                                  && traces)
                                (λ e. within_calls user p) λ e. tt

  -- If every archive that comes in a payload is parsed to an end, `handleAPNSMessage` ends on every
  -- payload: it returns or reads a nil pointer or out of range. Asynchronous messages make
  -- `handleEncryptedAPNSMessage` call itself twice at most, since the command of the wrapper is
  -- used up.
  pub handle_apns_message-Stops :
      (traces : Bool) (user : Option User) (p : SendMessagePayload)
      → Stops (handle_apns_message env pair pair_ec traces user p)
  unfolding handle_apns_message
  handle_apns_message-Stops traces user p =
      if_elim Stops (is_some p.expiration_seconds) (λ e. typing-Stops user p)
        λ e. if_elim Stops p.is_on_ids_topic (λ e. tt) λ e. by_command-Stops traces user p
