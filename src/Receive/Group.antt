-- ===== src/Receive/Group.antt =====
-- `handleLinkPreviewEdit`, `handleIMessageEdit` and `handleIMessageGroupMeta` of
-- imessage/imessage/direct/decrypt.go.
use imessage_for_me.Base.{
  ℕ, true, false, ◌&&◌, List, [], ◌∷◌, Option, none, some, Bytes, codes, equal, ◌==◌, if◌then◌else◌,
  length, is_nil,
}
use imessage_for_me.Apns.Payload.{Run, returned, ◌>>=◌}
use imessage_for_me.Uri.{ParsedUri, Result, ok, err, group}
use imessage_for_me.Uri.Identifier.{Locale, parse_identifier}
use imessage_for_me.Uri.Order.{sort}
use imessage_for_me.Uri.Order.Sorted.{contains}
use imessage_for_me.Balloon.{RichLinkMetadata, Attempt, failed}
use imessage_for_me.Balloon as Balloon
use imessage_for_me.Delivery.{uuid_of}
use imessage_for_me.Edits.{parse_edit_xml}
use imessage_for_me.Receive.{
  pos, Downloader, SendMessagePayload, User, Effect, edit, unsend, group_info_change,
}
use imessage_for_me.Receive.Wire.{Libraries, IMessageEdit, FileTransfer, IMessageGroupMetaChange}
use imessage_for_me.Receive.Text.{decoded_hex, copied_uuid}
use imessage_for_me.Receive.Participants.{parse_imessage_dm, two_person_chat}
use imessage_for_me.Receive.Imessage.{read, get_rich_link}

abbrev pub edit_type_edit : ℕ
edit_type_edit = 1

abbrev pub edit_type_unsend : ℕ
edit_type_unsend = 2

-- The participants of a change that can be parsed; the others are only logged.
abbrev keep_uri : Result → List ParsedUri → List ParsedUri
keep_uri (ok u) us = u ∷ us
keep_uri (err e) us = us

unfoldable pub parse_participants : Locale → List Bytes → List ParsedUri
parse_participants env [] = []
parse_participants env (s ∷ ss) =
    keep_uri (parse_identifier env s parse_imessage_dm) (parse_participants env ss)

-- The chat of a change with the old and the new participants that are reported.
unfoldable pub change_chat :
    Option ParsedUri
    → Bytes
    → List ParsedUri
    → List ParsedUri
    → Run (Option (ParsedUri × List ParsedUri × List ParsedUri))
change_chat destination group_id old new =
    if length old == 2
    then (do
      d ← read destination
      returned (elim (two_person_chat d old) [
        | none ↦ none
        | some other ↦ some (other, other ∷ [], [])
      ]))
    else returned (
        if is_nil group_id
        then none
        else some (record { scheme = group; identifier = group_id }, old, new))

-- A downloader whose signature and key are what could be decoded of them.
abbrev avatar_downloader : FileTransfer → Downloader
avatar_downloader f = record {
  url = f.mmcs_url;
  owner = f.mmcs_owner;
  signature = decoded_hex f.mmcs_signature_hex;
  key = decoded_hex f.decryption_key;
}

module _ (env : Libraries) (user : User) (payload : SendMessagePayload) where
  unfoldable pub preview_edit : Attempt (Option RichLinkMetadata) → Run (List Effect)
  preview_edit failed = returned []
  preview_edit (Balloon.ok link) = do
    sender ← read payload.sender_id
    time ← read payload.timestamp
    returned (
        edit (record {
          sender = sender;
          is_from_me = contains user.handles sender;
          timestamp = time;
          edit_message_id = uuid_of payload.message_uuid;
          edit_part_index = pos 0;
          text = [];
          edit_id = copied_uuid [];
          rich_link = link;
        })
        ∷ [])

  -- `handleLinkPreviewEdit`.
  unfoldable pub handle_link_preview_edit : Bytes → Run (List Effect)
  unfolding preview_edit
  handle_link_preview_edit body = elim (env.imessage_of body) [
    | none ↦ returned []
    | some m ↦ get_rich_link env m >>= preview_edit
  ]

  edited : IMessageEdit → Option Bytes → Run (List Effect)
  edited e none = returned []
  edited e (some text) = do
    sender ← read payload.sender_id
    time ← read payload.timestamp
    returned (
        edit (record {
          sender = sender;
          is_from_me = contains user.handles sender;
          timestamp = time;
          edit_message_id = e.edit_message_id;
          edit_part_index = e.edit_part_index;
          text = text;
          edit_id = uuid_of payload.message_uuid;
          rich_link = none;
        })
        ∷ [])

  unsent : IMessageEdit → Run (List Effect)
  unsent e = do
    sender ← read payload.sender_id
    time ← read payload.timestamp
    returned (
        unsend (record {
          sender = sender;
          is_from_me = contains user.handles sender;
          timestamp = time;
          unsend_message_id = e.edit_message_id;
          unsend_part_index = e.edit_part_index;
          unsend_id = uuid_of payload.message_uuid;
        })
        ∷ [])

  -- `handleIMessageEdit`.
  unfoldable pub handle_imessage_edit : Bytes → Run (List Effect)
  unfolding edited unsent
  handle_imessage_edit body = elim (env.edit_of body) [
    | none ↦ returned []
    | some e ↦
        if e.edit_type == edit_type_edit
        then edited e (parse_edit_xml env.parse_html e.edit_xml)
        else if e.edit_type == edit_type_unsend
        then unsent e
        else returned []
  ]

  changed :
      IMessageGroupMetaChange
      → Option (ParsedUri × List ParsedUri × List ParsedUri)
      → Run (List Effect)
  changed c none = returned []
  changed c (some (chat, old, new)) = do
    time ← read payload.timestamp
    sender ← read payload.sender_id
    returned (
        group_info_change (record {
          id = copied_uuid payload.message_uuid;
          properties_version = c.properties_version;
          group_id = c.group_id;
          chat = chat;
          time = time;
          sender = sender;
          is_from_me = contains user.handles sender;
          old_name = c.old_group_name;
          new_name = c.new_group_name;
          old_participants = old;
          new_participants = new;
          remove_avatar =
              equal c.type (codes "v") && elim c.new_group_avatar [ none ↦ true | some f ↦ false ];
          avatar_file_transfer_guid = elim c.new_group_avatar [
            | none ↦ none
            | some f ↦ some f.guid
          ];
          new_avatar = elim c.new_group_avatar [
            | none ↦ none
            | some f ↦ some (avatar_downloader f)
          ];
        })
        ∷ [])

  -- `handleIMessageGroupMeta`.
  unfoldable pub handle_imessage_group_meta : Bytes → Run (List Effect)
  unfolding changed
  handle_imessage_group_meta body = elim (env.group_change_of body) [
    | none ↦ returned []
    | some c ↦
        let old = sort (parse_participants env.locale c.participants) in
        let new = sort (parse_participants env.locale c.target_participants) in
        change_chat payload.destination_id c.group_id old new >>= changed c
  ]
