-- ===== src/Receive/Participants.antt =====
-- Whom an incoming message is from and which chat it belongs to, in
-- imessage/imessage/direct/decrypt.go: the two-person chats and groups of iMessage, and the
-- participants of text messages.
pub mod Members
pub mod Chats
use imessage_for_me.Base.{
  ℕ, zero, suc, ◌+◌, Bool, true, false, not, ◌&&◌, ◌||◌, List, [], ◌∷◌, ◌++◌, map, Option, none,
  some, Bytes, codes, equal, ltb, ◌==◌, if◌then◌else◌, length, is_nil,
}
use imessage_for_me.Uri.{
  ParsedUri, empty_uri, group, group_participants, Result, UriError, ok, err, missing_colon,
  empty_identifier, invalid_phone_number, invalid_email, invalid_hash, unknown_scheme, not_allowed,
  invalid_tel, invalid_uri, national_number, cut, is_empty, same_uri, to_string,
}
use imessage_for_me.Uri.Identifier.{
  intl_number, alphanumeric_sender_id, shortcodes, email, Locale, parse_identifier,
  parse_identifier_with_local_numbers,
}
use imessage_for_me.Uri.Order.{sort}
use imessage_for_me.Uri.Order.Sorted.{contains}

-- `ParseIncomingSMSForward` and `ParseiMessageDM` of uri.go.
abbrev pub parse_incoming_sms_forward : ℕ
parse_incoming_sms_forward = intl_number + alphanumeric_sender_id + shortcodes + email

abbrev pub parse_imessage_dm : ℕ
parse_imessage_dm = intl_number + email

-- The loop for the other user of a two-person chat: the last participant that is not the receiver.
unfoldable pub other_user : ParsedUri → List ParsedUri → ParsedUri → ParsedUri
other_user destination [] found = found
other_user destination (p ∷ ps) found =
    other_user destination ps (if same_uri p destination then found else p)

-- The chat of two participants; nothing where the message is dropped.
unfoldable pub two_person_chat : ParsedUri → List ParsedUri → Option ParsedUri
two_person_chat destination ps =
    let other = other_user destination ps empty_uri in
    if is_empty other || not (contains ps destination) then none else some other

abbrev group_uri : Bytes → ParsedUri
group_uri id = record { scheme = group; identifier = id }

-- The chat of an iMessage and the participants that it is reported with.
unfoldable pub chat_of : ParsedUri → Bytes → List ParsedUri → Option (ParsedUri × List ParsedUri)
chat_of destination group_id ps =
    if length ps == 2
    then elim (two_person_chat destination ps) [
      | none ↦ none
      | some other ↦ some (other, other ∷ [])
    ]
    else if is_nil group_id
    then none
    else some (group_uri group_id, sort ps)

-- The URI that the parser returns with an error: that of a text whose scheme was read.
abbrev unread : Option (Bytes × Bytes) → ParsedUri
unread none = empty_uri
unread (some (scheme, identifier)) = record { scheme = scheme; identifier = identifier }

unfoldable pub with_error : Bytes → UriError → ParsedUri
with_error s empty_identifier = unread (cut b':' s)
with_error s invalid_email = unread (cut b':' s)
with_error s invalid_hash = unread (cut b':' s)
with_error s unknown_scheme = unread (cut b':' s)
with_error s _ = empty_uri

-- Both results of a call of the parser, the error as a test.
unfoldable pub parsed_with_error : Bytes → Result → ParsedUri × Bool
parsed_with_error s (ok u) = (u, false)
parsed_with_error s (err e) = (with_error s e, true)

abbrev cons_uri : Result → Option (List ParsedUri) → Option (List ParsedUri)
cons_uri (ok u) (some us) = some (u ∷ us)
cons_uri r us = none

unfoldable pub parse_all : (Bytes → Result) → List Bytes → Option (List ParsedUri)
parse_all parse [] = some []
parse_all parse (s ∷ ss) = cons_uri (parse s) (parse_all parse ss)

abbrev last : ParsedUri → List ParsedUri → ParsedUri
last p [] = p
last p (q ∷ qs) = last q qs

abbrev init : ParsedUri → List ParsedUri → List ParsedUri
init p [] = []
init p (q ∷ qs) = p ∷ init q qs

unfoldable pub overwrite : ParsedUri → ParsedUri → List ParsedUri → List ParsedUri
overwrite r new [] = []
overwrite r new (p ∷ ps) =
    let rest = overwrite r new ps in if same_uri p r then new ∷ ps else p ∷ rest

abbrev without_last : List ParsedUri → List ParsedUri
without_last [] = []
without_last (p ∷ ps) = init p ps

-- The removal of the receiver: the last participant is put in its place.
unfoldable pub remove_receiver : ParsedUri → List ParsedUri → List ParsedUri
remove_receiver r [] = []
remove_receiver r (p ∷ ps) =
    if contains (p ∷ ps) r then without_last (overwrite r (last p ps) (p ∷ ps)) else p ∷ ps

abbrev with_participants :
    Result → Result → Option (List ParsedUri) → Option (ParsedUri × ParsedUri × List ParsedUri)
with_participants (ok sender) (ok receiver) (some ps) =
    some (sender, receiver, sort (remove_receiver receiver ps ++ sender ∷ []))
with_participants s r ps = none

-- `parseIncomingMMSParticipants`; nothing with an error.
unfoldable pub parse_incoming_mms_participants :
    Locale → Bytes → Bytes → Bytes → List Bytes → Option (ParsedUri × ParsedUri × List ParsedUri)
parse_incoming_mms_participants env region sender receiver recipients =
    let parse : Bytes → Result =
      λ s. parse_identifier_with_local_numbers env s parse_incoming_sms_forward region in
    with_participants (parse sender) (parse receiver) (parse_all parse recipients)

abbrev joined : List Bytes → Bytes
joined [] = []
joined (x ∷ []) = x
joined (x ∷ y ∷ ys) = x ++ b',' ∷ joined (y ∷ ys)

-- `makeMMSGroupID`, with the hash of the libraries.
unfoldable pub make_mms_group_id : (Bytes → Bytes) → List ParsedUri → ParsedUri
make_mms_group_id hash us = record {
  scheme = group_participants;
  identifier = hash (joined (map to_string us));
}

abbrev no_uris : List Bytes → List ParsedUri
no_uris [] = []
no_uris (s ∷ ss) = empty_uri ∷ no_uris ss

-- The loop of `parseReflectedMMSParticipants`: the slice that it leaves, and whether it failed.
unfoldable pub fill_participants : (Bytes → Result) → List Bytes → List ParsedUri × Bool
fill_participants parse [] = ([], false)
fill_participants parse (s ∷ ss) =
    let (u, failed) = parsed_with_error s (parse s) in
    let (us, failed') = fill_participants parse ss in
    if failed then (u ∷ no_uris ss, true) else (u ∷ us, failed')

-- `parseReflectedMMSParticipants`: its three results.
unfoldable pub parse_reflected_mms_participants :
    Locale → (Bytes → Bytes) → List Bytes → List ParsedUri × ParsedUri × Bool
parse_reflected_mms_participants env hash recipients =
    let (us, failed) =
      fill_participants (λ s. parse_identifier env s parse_incoming_sms_forward) recipients in
    if failed then (us, empty_uri, true) else (sort us, make_mms_group_id hash (sort us), false)
