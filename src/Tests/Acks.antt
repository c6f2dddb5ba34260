-- ===== src/Tests/Acks.antt =====
-- Messages to a few devices: their acknowledgements, their reports and their commands.
use imessage_for_me.Base.{
  ℕ, zero, suc, ◌-◌, ◌*◌, ◌≡◌, refl, true, false, ◌&&◌, List, [], ◌∷◌, ◌++◌, some, Bytes, codes,
  equal, if◌then◌else◌,
}
use imessage_for_me.Base.Assoc.{find, put}
use imessage_for_me.Uri.{ParsedUri, tel, same_uri}
use imessage_for_me.Ack.{
  AckWaiter, Ack, Part, fresh_payload, is_kept, push_token, fill_part, fill_parts, waiter,
  new_filled, receive_all, close,
}
use imessage_for_me.Ack.Counters.{pending, unacked, Inv, close_lem}
use imessage_for_me.Ack.Fill.{message_acks}
use imessage_for_me.Delivery.{Receipt, Connector, uuid_of, handle_delivered}
use imessage_for_me.Delivery.Collected.{delivered, handle_delivered_lem}
use imessage_for_me.Split.{Encoder, split_dtl}
use imessage_for_me.Split.Cover.{Good, split_dtl-Good}

abbrev repeat : ℕ → ℕ → Bytes
repeat zero b = []
repeat (suc n) b = b ∷ repeat n b

abbrev alice : ParsedUri
alice = record { scheme = tel; identifier = codes "+15550001111" }

abbrev bob : ParsedUri
bob = record { scheme = tel; identifier = codes "+15550002222" }

-- Two devices, and the token of the first one again under another handle.
abbrev parts : List Part
parts =
    record { token = repeat 32 1; destination = alice }
    ∷ record { token = repeat 32 2; destination = bob }
    ∷ record { token = repeat 32 1; destination = bob }
    ∷ []

abbrev sent : List Part
sent =
    record { token = repeat 32 1; destination = alice }
    ∷ record { token = repeat 32 2; destination = bob }
    ∷ []

abbrev waiting : AckWaiter
waiting = record {
  payloads = (repeat 32 1, fresh_payload alice) ∷ (repeat 32 2, fresh_payload bob) ∷ [];
  acked_users = (alice, false) ∷ (bob, false) ∷ [];
  closed = false;
  cancelled = false;
  wg = 2;
  user_wg = 2;
  error_closed = false;
  server_error = 0;
}

filled : new_filled parts ≡ some (waiting, sent)
unfolding new_filled fill_parts fill_part push_token is_kept waiter find put equal same_uri
filled = refl

-- A success, the same again, a failure, and an acknowledgement of an unknown device.
abbrev acks : List Ack
acks =
    record { token = repeat 32 1; status = 0 }
    ∷ record { token = repeat 32 1; status = 0 }
    ∷ record { token = repeat 32 2; status = 5032 }
    ∷ record { token = repeat 32 3; status = 0 }
    ∷ []

waiting-Inv : Inv waiting
unfolding pending unacked
waiting-Inv = record { devices = λ _. refl; users = λ _. refl; error_once = refl }

message_acks_example : (aw : AckWaiter) × (receive_all waiting acks ≡ some aw) × Inv aw
message_acks_example = message_acks parts waiting sent acks filled

close_lem_example :
    (aw : AckWaiter) × (close waiting ≡ some aw)
    × (aw.wg ≡ 0)
    × (aw.user_wg ≡ 0)
    × (aw.closed ≡ true)
    × Inv aw
close_lem_example = close_lem waiting waiting-Inv refl

abbrev connector : Connector
connector = record { collectors = (repeat 16 7, (bob, repeat 32 2 ∷ []) ∷ []) ∷ []; events = [] }

abbrev receipt : Receipt
receipt = record { sender_id = some alice; token = repeat 32 1; message_uuid = repeat 16 7 }

handle_delivered_lem_example :
    delivered (handle_delivered connector receipt) (repeat 16 7) alice ≡ (
      if equal (uuid_of (repeat 16 7)) (repeat 16 7) && same_uri alice alice
      then delivered connector (repeat 16 7) alice ++ repeat 32 1 ∷ []
      else delivered connector (repeat 16 7) alice)
handle_delivered_lem_example =
    handle_delivered_lem connector receipt alice alice (repeat 16 7) refl refl

-- A token of one byte.
abbrev short_receipt : Receipt
short_receipt = record { sender_id = some alice; token = 1 ∷ []; message_uuid = repeat 16 7 }

-- Each destination takes 100 bytes.
abbrev hundred_each : Encoder
hundred_each i c = some (100 * (c.last - c.first))

split_dtl-Good_example : Good hundred_each 1000 50 (split_dtl hundred_each 1000 60 50)
split_dtl-Good_example = split_dtl-Good hundred_each 1000 60 50
