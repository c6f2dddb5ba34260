-- ===== src/Delivery/Collected.antt =====
-- Each receipt is collected for its own message and sender, and is reported once.
use imessage_for_me.Base.Assoc.{bytes_key}
use imessage_for_me.Uri.Order.Sorted.{uri_key}
use imessage_for_me.Base.{
  ◌≡◌, refl, true, false, ◌&&◌, List, [], ◌∷◌, ◌++◌, none, some, Bytes, equal, ◌==◌, if◌then◌else◌,
  length, arith, Bool-cases, inl, inr, ◌⊎◌, equal_iff,
}
use imessage_for_me.Base.Assoc.{find, find-put_self, find-put_ne, find-delete_self, find-delete_ne}
use imessage_for_me.Uri.{ParsedUri, same_uri}
use imessage_for_me.Uri.Order.Sorted.{same_uri_iff}
use imessage_for_me.Delivery.{
  Receipt, DeliveredTo, Connector, uuid_of, or_empty, collector, add_token, deliver,
  handle_delivered, finish_deliveries,
}

-- The devices of a user to which a message is known to be delivered, since its last report.
abbrev pub delivered : Connector → Bytes → ParsedUri → List Bytes
delivered dc id sender = or_empty (find sender (collector dc id))

add_token_self :
    (sender : ParsedUri) (t : Bytes) (to : DeliveredTo)
    → or_empty (find sender (add_token sender t to)) ≡ or_empty (find sender to) ++ t ∷ []
unfolding add_token
add_token_self sender t to = rw (find-put_self sender _ to)

add_token_ne :
    (sender who : ParsedUri) (t : Bytes) (to : DeliveredTo)
    → same_uri sender who ≡ false
    → or_empty (find who (add_token sender t to)) ≡ or_empty (find who to)
unfolding add_token
add_token_ne sender who t to far = rw (find-put_ne sender who _ to far)

collector_self :
    (dc : Connector) (id : Bytes) (sender : ParsedUri) (t : Bytes)
    → collector (deliver dc id sender t) id ≡ add_token sender t (collector dc id)
unfolding deliver collector
collector_self dc id sender t = rw (find-put_self id _ dc.collectors)

collector_ne :
    (dc : Connector) (i id : Bytes) (sender : ParsedUri) (t : Bytes)
    → equal i id ≡ false
    → collector (deliver dc i sender t) id ≡ collector dc id
unfolding deliver collector
collector_ne dc i id sender t far = rw (find-put_ne i id _ dc.collectors far)

deliver_lem :
    (dc : Connector) (i id : Bytes) (sender who : ParsedUri) (t : Bytes)
    → delivered (deliver dc i sender t) id who ≡ (
        if equal i id && same_uri sender who
        then delivered dc id who ++ t ∷ []
        else delivered dc id who)
deliver_lem dc i id sender who t = elim (Bool-cases (equal i id)) [
  | inr far ↦ rw far (rw (collector_ne dc i id sender t far))
  | inl here ↦ rw here (
      rw ((equal_iff i id).0 here) (
        rw (collector_self dc id sender t) (elim (Bool-cases (same_uri sender who)) [
          | inl same ↦ rw same (
              rw (← ((same_uri_iff sender who).0 same)) (add_token_self sender t (collector dc id)))
          | inr differ ↦ rw differ (add_token_ne sender who t (collector dc id) differ)
        ])))
]

-- A receipt with a sender and a push token of 32 bytes adds its token behind those of the same
-- message and sender, and changes nothing for any other message or sender.
pub handle_delivered_lem :
    (dc : Connector) (r : Receipt) (sender who : ParsedUri) (id : Bytes)
    → r.sender_id ≡ some sender
    → length r.token ≡ 32
    → delivered (handle_delivered dc r) id who ≡ (
        if equal (uuid_of r.message_uuid) id && same_uri sender who
        then delivered dc id who ++ r.token ∷ []
        else delivered dc id who)
unfolding handle_delivered
handle_delivered_lem dc r sender who id s l =
    let full : (length r.token == 32) ≡ true = ground arith in
    rw (s, handle_delivered)
      (rw full (deliver_lem dc (uuid_of r.message_uuid) id sender who r.token))

-- A receipt with no sender, or with a token of another length, changes nothing.
pub handle_delivered_ignored :
    (dc : Connector) (r : Receipt)
    → (r.sender_id ≡ none) ⊎ ((length r.token == 32) ≡ false)
    → handle_delivered dc r ≡ dc
unfolding handle_delivered
handle_delivered_ignored dc r h = ground arith

-- The report of a message carries all that was collected for it, empties its collector, and leaves
-- those of the other messages.
pub finish_deliveries_lem :
    (dc : Connector) (id other : Bytes)
    → ((finish_deliveries dc id).events ≡ (id, collector dc id) ∷ dc.events)
      × (collector (finish_deliveries dc id) id ≡ [])
      × (collector (finish_deliveries dc id) other
          ≡ (if equal id other then [] else collector dc other))
unfolding finish_deliveries collector
finish_deliveries_lem dc id other = (
  refl,
  rw (find-delete_self id dc.collectors),
  elim (Bool-cases (equal id other)) [
    | inl same ↦
        rw same (rw (← ((equal_iff id other).0 same)) (rw (find-delete_self id dc.collectors)))
    | inr far ↦ rw far (rw (find-delete_ne id other dc.collectors far))
  ],
)
