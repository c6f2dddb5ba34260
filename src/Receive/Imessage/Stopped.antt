-- ===== src/Receive/Imessage/Stopped.antt =====
-- `handleIMessage` comes to an end.
use imessage_for_me.Base.{
  if◌then◌else◌, not, [], List, Option, none, some, Bytes, equal, if_elim, is_nil,
}
use imessage_for_me.Apns.Payload.{returned}
use imessage_for_me.Archive.{parse_archive}
use imessage_for_me.Uri.{ParsedUri}
use imessage_for_me.Balloon.{Attempt, failed}
use imessage_for_me.Balloon as Balloon
use imessage_for_me.Balloon.Handlers.{handle_you_tube_balloon_data, handle_link_balloon_data}
use imessage_for_me.Receive.{SendMessagePayload, User, IMessage}
use imessage_for_me.Receive.Wire.{Libraries}
use imessage_for_me.Receive.Participants.{chat_of}
use imessage_for_me.Receive.Parts.{XmlParts, imessage_parts}
use imessage_for_me.Receive.Stops.{
  Stops, Stops-bind, handle_link_balloon_data-Stops, handle_you_tube_balloon_data-Stops,
}
use imessage_for_me.Receive.Imessage.{
  read, balloon_url, balloon_you_tube, get_balloon_payload, get_rich_link, convert_you_tube_balloon,
  you_tube_html, emitted, with_chat, decoded, handle_imessage,
}

pub Stops-read {ℓ} : {A : Type ℓ} (o : Option A) → Stops (read o)
Stops-read none = tt
Stops-read (some a) = tt

module _ (env : Libraries)
    (archives : (body : Bytes)
      → Stops (parse_archive env.archive_calls (env.balloons.archive_of body))) where
  pub get_rich_link-Stops : (m : IMessage) → Stops (get_rich_link env m)
  unfolding get_rich_link
  get_rich_link-Stops m =
      if_elim Stops (not (equal m.balloon_id balloon_url)) (λ e. tt)
        λ e. by_payload (get_balloon_payload env m)
    where
      by_payload :
          (o : Option Bytes)
          → Stops (elim o [
            | none ↦ returned failed
            | some body ↦
                if is_nil body
                then returned (Balloon.ok none)
                else handle_link_balloon_data env.balloons env.archive_calls body
          ])
      by_payload none = tt
      by_payload (some body) =
          if_elim Stops (is_nil body) (λ e. tt)
            λ e. handle_link_balloon_data-Stops env archives body

  you_tube-Stops : (m : IMessage) → Stops (you_tube_html env m)
  unfolding you_tube_html convert_you_tube_balloon
  you_tube-Stops m =
      if_elim Stops (equal m.balloon_id balloon_you_tube)
        (λ e. by_payload (get_balloon_payload env m)) λ e. tt
    where
      by_payload :
          (o : Option Bytes)
          → Stops (elim o [
            | none ↦ returned failed
            | some body ↦
                if is_nil body
                then returned (Balloon.ok [])
                else handle_you_tube_balloon_data env.balloons env.archive_calls body
          ])
      by_payload none = tt
      by_payload (some body) =
          if_elim Stops (is_nil body) (λ e. tt)
            λ e. handle_you_tube_balloon_data-Stops env archives body

  module _ (user : User) (payload : SendMessagePayload) where
    emitted-Stops :
        (m : IMessage) (destination : ParsedUri) (a : ParsedUri × List ParsedUri) (parts : XmlParts)
        → Stops (emitted env user payload m destination a parts)
    unfolding emitted
    emitted-Stops m destination a parts = Stops-bind _ _ (you_tube-Stops m) λ html.
        Stops-bind _ _ (get_rich_link-Stops m) λ link.
          Stops-bind _ _ (Stops-read payload.timestamp)
            λ time. Stops-bind _ _ (Stops-read payload.sender_id) λ sender. tt

    with_chat-Stops :
        (m : IMessage) (destination : ParsedUri) (o : Option (ParsedUri × List ParsedUri))
        → Stops (with_chat env user payload m destination o)
    unfolding with_chat
    with_chat-Stops m destination none = tt
    with_chat-Stops m destination (some (chat, participants)) =
        Stops-bind _ _ (by_parts (imessage_parts env m)) λ more. tt
      where
        by_parts :
            (o : Option XmlParts)
            → Stops (elim o [
              | none ↦ returned []
              | some parts ↦ emitted env user payload m destination (chat, participants) parts
            ])
        by_parts none = tt
        by_parts (some parts) = emitted-Stops m destination (chat, participants) parts

    decoded-Stops : (o : Option IMessage) → Stops (decoded env user payload o)
    unfolding decoded
    decoded-Stops none = tt
    decoded-Stops (some m) =
        if_elim Stops (is_nil m.participants) (λ e. tt)
          λ e. Stops-bind _ _ (Stops-read payload.destination_id) λ destination.
            with_chat-Stops m destination (chat_of destination m.group_id m.participants)

    pub handle_imessage-Stops : (body : Bytes) → Stops (handle_imessage env user payload body)
    unfolding handle_imessage
    handle_imessage-Stops body = decoded-Stops (env.imessage_of body)
