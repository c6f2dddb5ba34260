-- ===== src/Receive/Participants/Members.antt =====
-- The participants of an incoming text message: the recipients, less the receiver, with the sender.
use imessage_for_me.Base.{
  ℕ, ◌+◌, ◌-◌, ◌≡◌, refl, ap, ◌∙◌, Bool, true, false, ◌&&◌, ◌||◌, List, [], ◌∷◌, ◌++◌, some, Bytes,
  arith, ltb, Bool-cases, inl, inr,
}
use imessage_for_me.Uri.{ParsedUri, ok, same_uri}
use imessage_for_me.Uri.Identifier.{Locale, parse_identifier_with_local_numbers}
use imessage_for_me.Uri.Order.{sort}
use imessage_for_me.Uri.Order.Sorted.{contains, same_uri_iff, contains-sort, InOrder, sort-InOrder}
use imessage_for_me.Receive.Participants.{
  last, init, without_last, overwrite, remove_receiver, parse_all, parse_incoming_sms_forward,
  parse_incoming_mms_participants,
}

-- How often a URI stands in a list.
abbrev pub times : Bool → ℕ
times true = 1
times false = 0

abbrev pub count : ParsedUri → List ParsedUri → ℕ
count w [] = 0
count w (p ∷ ps) = times (same_uri p w) + count w ps

contains-count : (w : ParsedUri) (ps : List ParsedUri) → contains ps w ≡ ltb 0 (count w ps)
unfolding contains
contains-count w [] = refl
contains-count w (p ∷ ps) = ground (arith, contains-count w ps)

contains-append :
    (w : ParsedUri) (ps qs : List ParsedUri)
    → contains (ps ++ qs) w ≡ (contains ps w || contains qs w)
unfolding contains
contains-append w [] qs = refl
contains-append w (p ∷ ps) qs = ground (arith, contains-append w ps qs)

count-init :
    (w p : ParsedUri) (ps : List ParsedUri)
    → count w (init p ps) + times (same_uri (last p ps) w) ≡ count w (p ∷ ps)
count-init w p [] = omega arith
count-init w p (q ∷ qs) = omega (arith, count-init w q qs)

init-overwrite :
    (p r x q : ParsedUri) (qs : List ParsedUri)
    → init p (overwrite r x (q ∷ qs)) ≡ p ∷ without_last (overwrite r x (q ∷ qs))
unfolding overwrite
init-overwrite p r x q qs = elim (Bool-cases (same_uri q r)) [
  | inl e ↦ rw e refl
  | inr e ↦ rw e refl
]

count-moved :
    (w r x p : ParsedUri) (ps : List ParsedUri)
    → last p ps ≡ x
    → contains (p ∷ ps) r ≡ true
    → count w (without_last (overwrite r x (p ∷ ps))) + times (same_uri r w) ≡ count w (p ∷ ps)
unfolding overwrite
count-moved w r x p [] e h =
    let same : p ≡ r = (same_uri_iff p r).0 (unfold contains in ground (arith, h)) in
    rw ((same_uri_iff p r).1 same) (rw same (omega arith))
count-moved w r x p (q ∷ qs) e h = elim (Bool-cases (same_uri p r)) [
  | inl f ↦
      let same : p ≡ r = (same_uri_iff p r).0 f in
      rw f (rw (← same) (omega (arith, count-init w x (q ∷ qs), ap (λ u. times (same_uri u w)) e)))
  | inr f ↦ rw f (
      rw (init-overwrite p r x q qs)
        (omega (arith, count-moved w r x q qs e (unfold contains in ground (arith, h, f)))))
]

-- What is taken out: the receiver, where it is among them.
pub count-remove_receiver :
    (w r : ParsedUri) (ps : List ParsedUri)
    → count w (remove_receiver r ps) ≡ count w ps - times (contains ps r && same_uri r w)
unfolding remove_receiver contains
count-remove_receiver w r [] = omega arith
count-remove_receiver w r (p ∷ ps) = elim (Bool-cases (contains (p ∷ ps) r)) [
  | inl e ↦ rw e (omega (arith, count-moved w r (last p ps) p ps refl e))
  | inr e ↦ rw e (omega arith)
]

-- What `parseIncomingMMSParticipants` returns for a sender, a receiver and recipients.
pub record IsJoined (sender receiver : ParsedUri) (recipients participants : List ParsedUri)
    : Type 0 where
  pub in_order : InOrder participants
  pub has_sender : contains participants sender ≡ true
  pub others :
      (w : ParsedUri)
      → contains participants w
        ≡ (same_uri sender w || ltb (times (same_uri receiver w)) (count w recipients))

left_over : (n k : ℕ) → (ltb 0 (n - k) || (false || false)) ≡ ltb k n
left_over n k = ground arith

-- Where the receiver is not among the recipients, none of them is taken out, and none is the receiver.
absent :
    (w r : ParsedUri) (ps : List ParsedUri)
    → ltb (times (contains ps r && same_uri r w)) (count w ps)
      ≡ ltb (times (same_uri r w)) (count w ps)
absent w r ps = elim (Bool-cases (same_uri r w)) [
  | inl e ↦
      let same : r ≡ w = (same_uri_iff r w).0 e in
      rw (contains-count r ps) (rw e (ground (arith, ap (λ u. count u ps) same)))
  | inr e ↦ rw e (ground arith)
]

kept :
    (sender w : ParsedUri) (ps : List ParsedUri) (b : Bool)
    → (ltb 0 (count w ps - times b) || contains (sender ∷ []) w)
      ≡ (same_uri sender w || ltb (times b) (count w ps))
unfolding contains
kept sender w ps b = ground (arith, left_over (count w ps) (times b))

participants-IsJoined :
    (sender receiver : ParsedUri) (ps : List ParsedUri)
    → IsJoined sender receiver ps (sort (remove_receiver receiver ps ++ sender ∷ []))
participants-IsJoined sender receiver ps = record {
  in_order = sort-InOrder (remove_receiver receiver ps ++ sender ∷ []);
  has_sender = rw (contains-sort (remove_receiver receiver ps ++ sender ∷ []) sender) (
      rw (contains-append sender (remove_receiver receiver ps) (sender ∷ []))
        (unfold contains in ground (arith, same_uri_iff sender sender)));
  others = λ w. rw (contains-sort (remove_receiver receiver ps ++ sender ∷ []) w) (
      rw (contains-append w (remove_receiver receiver ps) (sender ∷ [])) (
        rw (contains-count w (remove_receiver receiver ps)) (
          rw (count-remove_receiver w receiver ps) (
            kept sender w ps (contains ps receiver && same_uri receiver w)
            ∙ ap (λ b. same_uri sender w || b) (absent w receiver ps)))));
}

-- If the sender, the receiver and every recipient of a text message can be parsed,
-- `parseIncomingMMSParticipants` returns the sender, the receiver and a list of participants in the
-- order of their schemes. The sender is one of them. Anyone else is one exactly when they are among
-- the recipients, the receiver only when listed more than once.
pub parse_incoming_mms_participants_lem :
    (env : Locale) (region sender receiver : Bytes) (recipients : List Bytes) (s r : ParsedUri)
    (us : List ParsedUri)
    → parse_identifier_with_local_numbers env sender parse_incoming_sms_forward region ≡ ok s
    → parse_identifier_with_local_numbers env receiver parse_incoming_sms_forward region ≡ ok r
    → parse_all
        (λ t. parse_identifier_with_local_numbers env t parse_incoming_sms_forward region)
        recipients
      ≡ some us
    → (ps : List ParsedUri) × (parse_incoming_mms_participants env region sender receiver recipients
        ≡ some (s, r, ps))
      × IsJoined s r us ps
unfolding parse_incoming_mms_participants
parse_incoming_mms_participants_lem env region sender receiver recipients s r us a b c =
    (sort (remove_receiver r us ++ s ∷ []), rw a (rw b (rw c refl)), participants-IsJoined s r us)
