-- ===== src/Receive/Imessage/Addressed.antt =====
-- The chat and the people of the messages that `handleIMessage` reports.
use imessage_for_me.Base.{
  ℕ, ◌≡◌, ◌⊎◌, inl, inr, refl, ap, true, false, not, ◌||◌, List, [], ◌∷◌, Option, none, some, Bytes,
  arith, All, length, ◌==◌, is_nil, Bool-cases, if_elim,
}
use imessage_for_me.Apns.Payload.{Run, returned, panicked, out_of_fuel, ◌>>=◌}
use imessage_for_me.Uri.{ParsedUri, empty_uri, group, is_empty, same_uri}
use imessage_for_me.Uri.Order.Sorted.{contains, same_uri_iff, InOrder, sort-InOrder, contains-sort}
use imessage_for_me.Balloon.{RichLinkMetadata, Attempt}
use imessage_for_me.Receive.{
  TargetedTapback, Message, SendMessagePayload, User, Effect, message, broadcasts_handle, IMessage,
}
use imessage_for_me.Receive.Wire.{Libraries}
use imessage_for_me.Receive.Participants.{other_user, two_person_chat, chat_of}
use imessage_for_me.Receive.Parts.{XmlParts, imessage_parts}
use imessage_for_me.Receive.Imessage.{
  read, or_default, built, tapback_of, you_tube_html, get_rich_link, emitted, with_chat, decoded,
  handle_imessage,
}

-- The other of two people: a participant beside the receiver.
pub record IsDirect (destination chat : ParsedUri) (ps shown : List ParsedUri) : Type 0 where
  pub two : length ps ≡ 2
  pub has_receiver : contains ps destination ≡ true
  pub is_participant : contains ps chat ≡ true
  pub is_other : same_uri chat destination ≡ false
  pub only_other : shown ≡ chat ∷ []

-- A group with an identifier, and all of its participants in order.
pub record IsGroup (group_id : Bytes) (chat : ParsedUri) (ps shown : List ParsedUri) : Type 0 where
  pub is_group : chat ≡ record { scheme = group; identifier = group_id }
  pub has_id : is_nil group_id ≡ false
  pub in_order : InOrder shown
  pub same_people : (w : ParsedUri) → contains shown w ≡ contains ps w

other_user_lem :
    (destination : ParsedUri) (ps : List ParsedUri) (found : ParsedUri)
    → (other_user destination ps found ≡ found)
      ⊎ ((contains ps (other_user destination ps found) ≡ true)
          × (same_uri (other_user destination ps found) destination ≡ false))
unfolding other_user contains
other_user_lem destination [] found = inl refl
other_user_lem destination (p ∷ ps) found = elim (Bool-cases (same_uri p destination)) [
  | inl e ↦ rw e (elim (other_user_lem destination ps found) [
    | inl h ↦ inl h
    | inr (h, k) ↦ inr (rw h (ground arith), k)
  ])
  | inr e ↦ rw e (elim (other_user_lem destination ps p) [
    | inl h ↦ inr (rw h (ground (arith, same_uri_iff p p)), rw h e)
    | inr (h, k) ↦ inr (rw h (ground arith), k)
  ])
]

abbrev pub Addressed : ParsedUri → Bytes → List ParsedUri → ParsedUri → List ParsedUri → Type 0
Addressed destination group_id ps chat shown =
    IsDirect destination chat ps shown ⊎ IsGroup group_id chat ps shown

-- What is chosen for participants, where something is.
abbrev Chosen : ParsedUri → Bytes → List ParsedUri → Option (ParsedUri × List ParsedUri) → Type 0
Chosen destination group_id ps none = Unit
Chosen destination group_id ps (some (chat, shown)) = Addressed destination group_id ps chat shown

abbrev Other : ParsedUri → List ParsedUri → Option ParsedUri → Type 0
Other destination ps none = Unit
Other destination ps (some u) =
    (contains ps destination ≡ true) × (contains ps u ≡ true) × (same_uri u destination ≡ false)

two_person_chat-Other :
    (destination : ParsedUri) (ps : List ParsedUri)
    → Other destination ps (two_person_chat destination ps)
unfolding two_person_chat is_empty
two_person_chat-Other destination ps =
    if_elim (Other destination ps)
      (is_empty (other_user destination ps empty_uri) || not (contains ps destination)) (λ e. tt)
      λ e. elim (other_user_lem destination ps empty_uri) [
        | inl h ↦ absurd (ground (arith, e, ap is_empty h))
        | inr (h, k) ↦ (ground (arith, e), h, k)
      ]

chat_of-Chosen :
    (destination : ParsedUri) (group_id : Bytes) (ps : List ParsedUri)
    → Chosen destination group_id ps (chat_of destination group_id ps)
unfolding chat_of
chat_of-Chosen destination group_id ps =
    if_elim (Chosen destination group_id ps) (length ps == 2)
      (λ e. of_two e (two_person_chat destination ps) (two_person_chat-Other destination ps))
      λ e.
        if_elim (Chosen destination group_id ps) (is_nil group_id) (λ f. tt)
          λ f. inr (record {
            is_group = refl;
            has_id = f;
            in_order = sort-InOrder ps;
            same_people = contains-sort ps;
          })
  where
    of_two :
        (length ps == 2) ≡ true
        → (o : Option ParsedUri) → Other destination ps o
        → Chosen destination group_id ps
            (elim o [ none ↦ none | some other ↦ some (other, other ∷ []) ])
    of_two e none h = tt
    of_two e (some u) h = inl (record {
      two = ground (arith, e);
      has_receiver = h.0;
      is_participant = h.1;
      is_other = h.2;
      only_other = refl;
    })

-- `P` holds of each effect of a run that ends.
abbrev pub Emits : (Effect → Type 0) → Run (List Effect) → Type 0
Emits P (returned es) = All P es
Emits P panicked = Unit
Emits P out_of_fuel = Unit

Emits-bind {ℓ} :
    {A : Type ℓ} (P : Effect → Type 0) (r : Run A) (f : A → Run (List Effect))
    → ((a : A) → Emits P (f a))
    → Emits P (r >>= f)
Emits-bind P (returned a) f h = h a
Emits-bind P panicked f h = tt
Emits-bind P out_of_fuel f h = tt

Emits-read {ℓ} :
    {A : Type ℓ} (P : Effect → Type 0) (o : Option A) (f : A → Run (List Effect))
    → ((a : A) → o ≡ some a → Emits P (f a))
    → Emits P (read o >>= f)
Emits-read P none f h = tt
Emits-read P (some a) f h = h a refl

-- A message as its structure and its payload say.
pub record IsReported (user : User) (payload : SendMessagePayload) (m : IMessage) (msg : Message)
    : Type 0 where
  pub is_received : payload.destination_id ≡ some msg.receiver
  pub is_sent : payload.sender_id ≡ some msg.sender
  pub is_own : msg.is_from_me ≡ contains user.handles msg.sender
  pub is_at : payload.timestamp ≡ some msg.time
  pub addressed : Addressed msg.receiver m.group_id m.participants msg.chat msg.participants

abbrev pub Reported : User → SendMessagePayload → IMessage → Effect → Type 0
Reported user payload m (message msg) = IsReported user payload m msg
Reported user payload m _ = Unit

module _ (env : Libraries) (user : User) (payload : SendMessagePayload) (m : IMessage) where
  emitted-Reported :
      (destination chat : ParsedUri) (shown : List ParsedUri) (parts : XmlParts)
      → payload.destination_id ≡ some destination
      → Addressed destination m.group_id m.participants chat shown
      → Emits (Reported user payload m) (emitted env user payload m destination (chat, shown) parts)
  unfolding emitted
  emitted-Reported destination chat shown parts d a = Emits-bind _ (you_tube_html env m) _ λ html.
      Emits-bind _ (get_rich_link env m) _ λ link. Emits-read _ payload.timestamp _ λ time t.
        Emits-read _ payload.sender_id _
          λ sender s. by_tapback html link time sender t s (tapback_of env m)
    where
      by_tapback :
          (html : Attempt Bytes) (link : Attempt (Option RichLinkMetadata)) (time : ℕ)
          (sender : ParsedUri)
          → payload.timestamp ≡ some time
          → payload.sender_id ≡ some sender
          → (o : Option (Option TargetedTapback))
          → All (Reported user payload m) (elim o [
            | none ↦ []
            | some tapback ↦
                message (
                  built env user payload m destination
                    (chat, shown)
                    parts
                    (or_default [] html)
                    (or_default none link)
                    tapback
                    time
                    sender)
                ∷ []
          ])
      by_tapback html link time sender t s none = tt
      by_tapback html link time sender t s (some tapback) =
          (record { is_received = d; is_sent = s; is_own = refl; is_at = t; addressed = a }, tt)

  with_chat-Reported :
      (destination : ParsedUri) (o : Option (ParsedUri × List ParsedUri))
      → payload.destination_id ≡ some destination
      → Chosen destination m.group_id m.participants o
      → Emits (Reported user payload m) (with_chat env user payload m destination o)
  unfolding with_chat
  with_chat-Reported destination none d c = tt
  with_chat-Reported destination (some (chat, shown)) d c =
      started
        (elim (imessage_parts env m) [
          | none ↦ returned []
          | some parts ↦ emitted env user payload m destination (chat, shown) parts
        ])
        (by_parts (imessage_parts env m))
    where
      by_parts :
          (o : Option XmlParts)
          → Emits (Reported user payload m) (elim o [
            | none ↦ returned []
            | some parts ↦ emitted env user payload m destination (chat, shown) parts
          ])
      by_parts none = tt
      by_parts (some parts) = emitted-Reported destination chat shown parts d c

      started :
          (r : Run (List Effect))
          → Emits (Reported user payload m) r
          → Emits
              (Reported user payload m)
              (r >>= λ more. returned (broadcasts_handle destination shown ∷ more))
      started (returned es) h = (tt, h)
      started panicked h = tt
      started out_of_fuel h = tt

-- Whatever a decoded iMessage brings about, a message that `handleIMessage` reports is from the sender
-- and to the receiver of the payload, at its time, and counts as one's own exactly if the sender is
-- one of the user's handles. Its chat is either the one participant beside the receiver, who must be
-- one of two, or a group with an identifier, whose people are the participants in order.
pub handle_imessage-Reported :
    (env : Libraries) (user : User) (payload : SendMessagePayload) (body : Bytes) (m : IMessage)
    → env.imessage_of body ≡ some m
    → Emits (Reported user payload m) (handle_imessage env user payload body)
unfolding handle_imessage decoded
handle_imessage-Reported env user payload body m h = rw h (
    if_elim (Emits (Reported user payload m)) (is_nil m.participants) (λ e. tt)
      λ e. Emits-read _ payload.destination_id _ λ destination d.
        with_chat-Reported env user payload m destination
          (chat_of destination m.group_id m.participants) d
          (chat_of-Chosen destination m.group_id m.participants))
