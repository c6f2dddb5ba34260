-- ===== src/Delivery.antt =====
-- imessage/imessage/direct/deliverycollector.go: delivery receipts of one message are collected
-- until none has come for a while, and are then reported together. The timer is an event of the
-- environment, `finish_deliveries`; the calls hold the lock of the map.
pub mod Collected
use imessage_for_me.Base.Assoc.{bytes_key}
use imessage_for_me.Uri.Order.Sorted.{uri_key}
use imessage_for_me.Base.{
  ℕ, Bool, true, false, not, ◌&&◌, ◌||◌, List, [], ◌∷◌, ◌++◌, Option, none, some, Bytes, equal,
  equal_iff, ◌==◌, if◌then◌else◌, length, take,
}
use imessage_for_me.Base.Assoc.{Key, find, put, delete}
use imessage_for_me.Uri.{ParsedUri, same_uri}
use imessage_for_me.Uri.Order.Sorted.{same_uri_iff}

-- What `handleDelivered` reads of a payload.
pub record Receipt : Type 0 where
  pub sender_id : Option ParsedUri
  pub token : Bytes
  pub message_uuid : Bytes

abbrev pub DeliveredTo : Type 0
DeliveredTo = List (ParsedUri × List Bytes)

-- `deliveryCollectors`, and the `MessageDelivered` events that were emitted, the last one first.
pub record Connector : Type 0 where
  pub collectors : List (Bytes × DeliveredTo)
  pub events : List (Bytes × DeliveredTo)

abbrev pub nil_uuid : Bytes
nil_uuid = 0 ∷ 0 ∷ 0 ∷ 0 ∷ 0 ∷ 0 ∷ 0 ∷ 0 ∷ 0 ∷ 0 ∷ 0 ∷ 0 ∷ 0 ∷ 0 ∷ 0 ∷ 0 ∷ []

-- `ByteUUID.UUID` of plistuuid/uuid.go: bytes of another length give the nil UUID.
unfoldable pub uuid_of : Bytes → Bytes
uuid_of u = if length u == 16 then u else nil_uuid

abbrev pub or_empty {ℓ} : {A : Type ℓ} → Option (List A) → List A
or_empty none = []
or_empty (some xs) = xs

-- The collector of a message, made anew where there is none.
unfoldable pub collector : Connector → Bytes → DeliveredTo
collector dc id = or_empty (find id dc.collectors)

unfoldable pub add_token : ParsedUri → Bytes → DeliveredTo → DeliveredTo
add_token sender token to = put sender (or_empty (find sender to) ++ token ∷ []) to

-- `handleDelivered` for a receipt from a known sender.
unfoldable pub deliver : Connector → Bytes → ParsedUri → Bytes → Connector
deliver dc id sender token = record dc {
  collectors = put id (add_token sender token (collector dc id)) dc.collectors;
}

-- `handleDelivered`.
unfoldable pub handle_delivered : Connector → Receipt → Connector
handle_delivered dc r = elim r.sender_id [
  | none ↦ dc
  | some sender ↦
      if not (length r.token == 32) then dc else deliver dc (uuid_of r.message_uuid) sender r.token
]

-- `finishDeliveries` of the collector of a message, which its timer calls.
unfoldable pub finish_deliveries : Connector → Bytes → Connector
finish_deliveries dc id = record {
  collectors = delete id dc.collectors;
  events = (id, collector dc id) ∷ dc.events;
}
