-- ===== src/Ack/Fill.antt =====
-- Filling a waiter: the counts are right from the start, and a push token stands for one handle.
use mathlib.Core.Option.{some-injective}
use mathlib.Core.Path.{subst}
use imessage_for_me.Base.Assoc.{bytes_key}
use imessage_for_me.Uri.Order.Sorted.{uri_key}
use imessage_for_me.Base.{
  ◌≡◌, refl, ◌∙◌, Bool, true, false, List, [], ◌∷◌, none, some, Bytes, equal, equal_iff, ltb,
  length, take, arith, Bool-cases, Option-cases, inl, inr, All, All-concat, ◌⊎◌,
}
use imessage_for_me.Base.Assoc.{find, put, find-put_self, find-put_ne}
use imessage_for_me.Uri.{ParsedUri, same_uri}
use imessage_for_me.Uri.Order.Sorted.{same_uri_iff}
use imessage_for_me.Ack.{
  AckPayload, AckWaiter, Ack, Part, Filling, push_token, fresh_payload, is_kept, fill_part,
  fill_parts, no_parts, waiter, new_filled, receive_all,
}
use imessage_for_me.Ack.Counters.{pending, unacked, Inv, receive_all_lem}

-- Nothing has been acknowledged yet.
abbrev AllFresh : List (Bytes × AckPayload) → Type 0
AllFresh = All (λ e. e.1.received ≡ none)

abbrev AllUnacked : List (ParsedUri × Bool) → Type 0
AllUnacked = All (λ e. e.1 ≡ false)

AllFresh-put :
    (t : Bytes) (d : ParsedUri) (ps : List (Bytes × AckPayload))
    → AllFresh ps
    → AllFresh (put t (fresh_payload d) ps)
unfolding put
AllFresh-put t d [] a = (refl, tt)
AllFresh-put t d ((s, p) ∷ ps) a = elim (Bool-cases (equal s t)) [
  | inl e ↦ rw e (refl, a.1)
  | inr e ↦ rw e (a.0, AllFresh-put t d ps a.1)
]

AllUnacked-put :
    (d : ParsedUri) (us : List (ParsedUri × Bool)) → AllUnacked us → AllUnacked (put d false us)
unfolding put
AllUnacked-put d [] a = (refl, tt)
AllUnacked-put d ((u, b) ∷ us) a = elim (Bool-cases (same_uri u d)) [
  | inl e ↦ rw e (refl, a.1)
  | inr e ↦ rw e (a.0, AllUnacked-put d us a.1)
]

pending-AllFresh : (ps : List (Bytes × AckPayload)) → AllFresh ps → length ps ≡ pending ps
unfolding pending
pending-AllFresh [] a = refl
pending-AllFresh ((t, p) ∷ ps) a = ground (arith, a.0, pending-AllFresh ps a.1)

unacked-AllUnacked : (us : List (ParsedUri × Bool)) → AllUnacked us → length us ≡ unacked us
unfolding unacked
unacked-AllUnacked [] a = refl
unacked-AllUnacked ((u, b) ∷ us) a = ground (arith, a.0, unacked-AllUnacked us a.1)

-- The entry's token stands for the entry's handle, and waits.
abbrev pub Addressed : List (Bytes × AckPayload) → Part → Type 0
Addressed ps k = find (take 32 k.token) ps ≡ some (fresh_payload k.destination)

Addressed-put :
    (ps : List (Bytes × AckPayload)) (t : Bytes) (d : ParsedUri) (k : Part)
    → is_kept (find t ps) d ≡ true
    → Addressed ps k
    → Addressed (put t (fresh_payload d) ps) k
unfolding is_kept
Addressed-put ps t d k free a = elim (Bool-cases (equal t (take 32 k.token))) [
  | inl e ↦
      let same = (equal_iff t (take 32 k.token)).0 e in
      let owner : same_uri k.destination d ≡ true =
        rw (let found : find t ps ≡ some (fresh_payload k.destination) = rw same a in found) at
          free in
      rw (← same, find-put_self t (fresh_payload d) ps, (same_uri_iff k.destination d).0 owner)
  | inr e ↦ find-put_ne t (take 32 k.token) (fresh_payload d) ps e ∙ a
]

-- What holds of the maps while they are filled.
record Filled (f : Filling) : Type 0 where
  fresh : AllFresh f.payloads
  unanswered : AllUnacked f.acked_users
  addressed : All (Addressed f.payloads) f.kept

Addressed-All-put :
    (ps : List (Bytes × AckPayload)) (t : Bytes) (d : ParsedUri) (ks : List Part)
    → is_kept (find t ps) d ≡ true
    → All (Addressed ps) ks
    → All (Addressed (put t (fresh_payload d) ps)) ks
Addressed-All-put ps t d [] free a = tt
Addressed-All-put ps t d (k ∷ ks) free a =
    (Addressed-put ps t d k free a.0, Addressed-All-put ps t d ks free a.1)

fill_part-Filled :
    (f : Filling) (part : Part) (token : Bytes)
    → token ≡ take 32 part.token
    → Filled f
    → Filled (fill_part f part token)
unfolding fill_part
fill_part-Filled f part token e v =
    elim (Bool-cases (is_kept (find token f.payloads) part.destination)) [
      | inl free ↦ rw free (record {
        fresh = AllFresh-put token part.destination f.payloads v.fresh;
        unanswered = AllUnacked-put part.destination f.acked_users v.unanswered;
        addressed =
            All-concat _ f.kept part
              (Addressed-All-put f.payloads token part.destination f.kept free v.addressed)
              (rw (← e) (find-put_self token (fresh_payload part.destination) f.payloads));
      })
      | inr taken ↦ rw taken v
    ]

push_token-cases : (t : Bytes) → (push_token t ≡ none) ⊎ (push_token t ≡ some (take 32 t))
unfolding push_token
push_token-cases t = elim (Bool-cases (ltb (length t) 32)) [
  | inl e ↦ inl (rw e)
  | inr e ↦ inr (rw e)
]

fill_parts-Filled :
    (parts : List Part) (f g : Filling) → fill_parts f parts ≡ some g → Filled f → Filled g
unfolding fill_parts
fill_parts-Filled [] f g e v = rw (let same : g ≡ f = ground arith in same) v
fill_parts-Filled (part ∷ parts) f g e v = elim (push_token-cases part.token) [
  | inl short ↦ cc (rw short at e)
  | inr t ↦ fill_parts-Filled parts _ g (rw t at e) (fill_part-Filled f part _ refl v)
]

waiter-Inv : (f : Filling) → Filled f → Inv (waiter f)
unfolding waiter
waiter-Inv f v = record {
  devices = λ _. pending-AllFresh f.payloads v.fresh;
  users = λ _. unacked-AllUnacked f.acked_users v.unanswered;
  error_once = refl;
}

-- A waiter whose filling succeeded has counts that are right, and every entry that is kept has a
-- token that waits for the entry's own handle, whatever tokens were repeated.
pub new_filled_lem :
    (parts : List Part) (aw : AckWaiter) (kept : List Part)
    → new_filled parts ≡ some (aw, kept)
    → Inv aw × All (Addressed aw.payloads) kept
unfolding new_filled waiter
new_filled_lem parts aw kept e = elim (Option-cases (fill_parts no_parts parts)) [
  | inl n ↦ cc (rw n at e)
  | inr (f, ran) ↦
      let v =
        fill_parts-Filled parts no_parts f ran
          (record { fresh = tt; unanswered = tt; addressed = tt }) in
      subst (λ q. Inv q.0 × All (Addressed q.0.payloads) q.1)
        (some-injective _ _ (rw (ran, new_filled) at e)) (waiter-Inv f v, v.addressed)
]

-- From the filling of a waiter on, which succeeds if no push token is short, any acknowledgements
-- are received without a panic, and the wait groups count the devices and the users that are
-- missing.
pub message_acks :
    (parts : List Part) (aw : AckWaiter) (kept : List Part) (acks : List Ack)
    → new_filled parts ≡ some (aw, kept)
    → (aw' : AckWaiter) × (receive_all aw acks ≡ some aw') × Inv aw'
message_acks parts aw kept acks e = receive_all_lem acks aw (new_filled_lem parts aw kept e).0
