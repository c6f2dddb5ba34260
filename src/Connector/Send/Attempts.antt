-- ===== src/Connector/Send/Attempts.antt =====
-- How often a message is delivered and how often the function calls itself.
use imessage_for_me.Base.{
  ℕ, zero, suc, ◌+◌, ◌≤◌, ◌≡◌, ◌≢◌, refl, ◌∙◌, Bool, true, false, List, [], ◌∷◌, Option, none, some,
  Bytes, is_nil, arith, if_elim,
}
use imessage_for_me.Uri.{ParsedUri}
use imessage_for_me.Ids.Cache.{LookupIdentity}
use imessage_for_me.Ids.Lookup.{Network, LookupUser}
use imessage_for_me.Ids.Lookup.Cached.{Looked, lookup}
use imessage_for_me.Ids.Lookup.Cached.Keeps.{lookup-Inv}
use imessage_for_me.Ack.Report.{SendMessageError}
use imessage_for_me.Connector.Destinations.{Destined, Constructed, constructed, no_payload, panics}
use imessage_for_me.Connector.Send.{
  Delivery, not_written, context_done, server_error, reported, Sending, out_of_fuel, to_resend,
  Flags, Attempt, ends, again, resent, judge_report, judge_delivery, judge_reroute, judge_dtl,
  judge_constructed, judge_lookup, attempt_send, follow, send_encrypted_message, calls_left,
  deliveries_left, forced, no_lookup_params, is_missing,
}

abbrev is_stuck : Sending → Bool
is_stuck out_of_fuel = true
is_stuck r = false

to_resend-retriable : (b : Bool) (e : SendMessageError) → is_nil (to_resend b e) ≡ false → b ≡ true
unfolding to_resend
to_resend-retriable true e h = refl
to_resend-retriable false e h = absurd (ground (arith, h))

no_retry_lem :
    (flags : Flags)
    → flags.is_retriable ≡ true
    → (suc (calls_left (record flags { is_retriable = false })) ≤ calls_left flags)
      × (deliveries_left (record flags { is_retriable = false }) ≡ 1)
      × (deliveries_left flags ≡ 2)
unfolding calls_left deliveries_left
no_retry_lem flags h = ground (arith, h)

no_reroute_lem :
    (flags : Flags)
    → flags.reroutes ≡ true
    → (suc (calls_left (record flags { reroutes = false })) ≤ calls_left flags)
      × (deliveries_left (record flags { reroutes = false }) ≡ deliveries_left flags)
unfolding calls_left deliveries_left
no_reroute_lem flags h = ground (arith, h)

deliveries_positive : (flags : Flags) → 1 ≤ deliveries_left flags
unfolding deliveries_left
deliveries_positive flags = ground arith

two_calls : (flags : Flags) → calls_left flags ≤ 2
unfolding calls_left
two_calls flags = ground arith

module _ {W : Type 0} {P : Type 0} (net : Network W)
    (reroute : List ParsedUri → LookupUser × W → Bool × (LookupUser × W))
    (deliver : List P → LookupUser × W → Delivery × (LookupUser × W)) (push_token : Bytes)
    (payload : ParsedUri → LookupIdentity → Option P) (count : W → ℕ)
    (exchanges : (cert : Bytes) (own : ParsedUri) (us : List ParsedUri) (x : W)
      → count (net.exchange cert own us x).1 ≡ count x)
    (registers : (x : W) → count (net.register x).1 ≡ count x)
    (reroutes : (us : List ParsedUri) (u : LookupUser) (x : W)
      → count (reroute us (u, x)).1.1 ≡ count x)
    (delivers : (ps : List P) (u : LookupUser) (x : W)
      → count (deliver ps (u, x)).1.1 ≡ suc (count x)) where
  -- An attempt that keeps to the total of deliveries.
  abbrev Within : ℕ → Flags → Attempt W → Type 0
  Within total flags (ends r (u, w)) = (is_stuck r ≡ false) × (count w ≤ total)
  Within total flags (again flags' us (u, w)) =
      (suc (calls_left flags') ≤ calls_left flags) × (count w + deliveries_left flags' ≤ total)

  lookup-count :
      (own : ParsedUri) (b : Bool) (us : List ParsedUri) (u : LookupUser) (w : W)
      → count
          (lookup net own
            (record { force = b; limited = false; always_use_cache = false })
            us
            (u, w)).1.1
        ≡ count w
  lookup-count own b us u w =
      lookup-Inv net (λ x. count x ≡ count w)
        (λ cert own' vs x short i. exchanges cert own' vs x ∙ i) (λ x i. registers x ∙ i) own b us u
        w refl

  resent-Within :
      (total : ℕ) (flags : Flags) (e : SendMessageError) (us : List ParsedUri) (l : Looked W)
      → flags.is_retriable ≡ true
      → count l.1.1 + 1 ≤ total
      → Within total flags (resent net reroute deliver push_token payload flags e us l)
  resent-Within total flags e us ((results, some error), (u, w)) h le = (refl, omega (arith, le))
  resent-Within total flags e us ((results, none), (u, w)) h le =
      let (fewer, one, two) = no_retry_lem flags h in (fewer, omega (arith, one, le))

  judge_report-Within :
      (total : ℕ) (own : ParsedUri) (flags : Flags) (e : SendMessageError) (us : List ParsedUri)
      (u : LookupUser) (w : W)
      → (is_nil us ≡ false → flags.is_retriable ≡ true)
      → count w + deliveries_left flags ≤ suc total
      → Within total flags
          (judge_report net reroute deliver push_token payload own flags e us (u, w))
  judge_report-Within total own flags e [] u w h le =
      (refl, omega (arith, le, deliveries_positive flags))
  judge_report-Within total own flags e (v ∷ us) u w h le =
      resent-Within total flags e (v ∷ us) (lookup net own forced (v ∷ us) (u, w)) (h refl)
        (omega (arith, lookup-count own true (v ∷ us) u w, le, (no_retry_lem flags (h refl)).2))

  judge_delivery-Within :
      (total : ℕ) (own : ParsedUri) (flags : Flags) (d : Delivery) (u : LookupUser) (w : W)
      → count w + deliveries_left flags ≤ suc total
      → Within total flags
          (judge_delivery net reroute deliver push_token payload own flags (d, (u, w)))
  judge_delivery-Within total own flags (reported e) u w le =
      judge_report-Within total own flags e (to_resend flags.is_retriable e) u w
        (to_resend-retriable flags.is_retriable e) le
  judge_delivery-Within total own flags not_written u w le =
      (refl, omega (arith, le, deliveries_positive flags))
  judge_delivery-Within total own flags context_done u w le =
      (refl, omega (arith, le, deliveries_positive flags))
  judge_delivery-Within total own flags (server_error e) u w le =
      (refl, omega (arith, le, deliveries_positive flags))

  judge_reroute-Within :
      (total : ℕ) (flags : Flags) (us : List ParsedUri) (b : Bool) (u : LookupUser) (w : W)
      → flags.reroutes ≡ true
      → count w + deliveries_left flags ≤ total
      → Within total flags
          (judge_reroute net reroute deliver push_token payload flags us (b, (u, w)))
  judge_reroute-Within total flags us true u w h le =
      let (fewer, same) = no_reroute_lem flags h in (fewer, omega (arith, same, le))
  judge_reroute-Within total flags us false u w h le = (refl, omega (arith, le))

  judge_dtl-Within :
      (total : ℕ) (own : ParsedUri) (original : List ParsedUri) (flags : Flags)
      (us : List ParsedUri) (d : Destined P) (u : LookupUser) (w : W)
      → count w + deliveries_left flags ≤ total
      → Within total flags
          (judge_dtl net reroute deliver push_token payload own original flags us d (u, w))
  judge_dtl-Within total own original flags us d u w le =
      if_elim (Within total flags) (is_missing original d.not_found)
        (λ m.
          if_elim (Within total flags) flags.reroutes
            (λ r.
              judge_reroute-Within total flags us (reroute d.not_found (u, w)).0 _ _ r
                (omega (arith, le, reroutes d.not_found u w)))
            (λ r. (refl, omega (arith, le))))
        (λ m.
          if_elim (Within total flags) (is_nil d.dtl) (λ n. (refl, omega (arith, le)))
            (λ n.
              judge_delivery-Within total own flags (deliver d.dtl (u, w)).0 _ _
                (omega (arith, le, delivers d.dtl u w))))

  judge_constructed-Within :
      (total : ℕ) (own : ParsedUri) (original : List ParsedUri) (flags : Flags)
      (us : List ParsedUri) (c : Constructed P) (u : LookupUser) (w : W)
      → count w + deliveries_left flags ≤ total
      → Within total flags
          (judge_constructed net reroute deliver push_token payload own original flags us c (u, w))
  judge_constructed-Within total own original flags us (constructed d) u w le =
      judge_dtl-Within total own original flags us d u w le
  judge_constructed-Within total own original flags us no_payload u w le = (refl, omega (arith, le))
  judge_constructed-Within total own original flags us panics u w le = (refl, omega (arith, le))

  judge_lookup-Within :
      (total : ℕ) (own : ParsedUri) (original : List ParsedUri) (flags : Flags)
      (us : List ParsedUri) (l : Looked W)
      → count l.1.1 + deliveries_left flags ≤ total
      → Within total flags
          (judge_lookup net reroute deliver push_token payload own original flags us l)
  judge_lookup-Within total own original flags us ((results, some e), (u, w)) le =
      (refl, omega (arith, le))
  judge_lookup-Within total own original flags us ((results, none), (u, w)) le =
      judge_constructed-Within total own original flags us _ u w le

  attempt_send-Within :
      (total : ℕ) (own : ParsedUri) (original : List ParsedUri) (flags : Flags)
      (us : List ParsedUri) (u : LookupUser) (w : W)
      → count w + deliveries_left flags ≤ total
      → Within total flags
          (attempt_send net reroute deliver push_token payload own original flags us (u, w))
  unfolding attempt_send
  attempt_send-Within total own original flags us u w le =
      judge_lookup-Within total own original flags us (lookup net own no_lookup_params us (u, w))
        (omega (arith, le, lookup-count own false us u w))

  -- The end within the total.
  abbrev Ended : ℕ → Sending × (LookupUser × W) → Type 0
  Ended total (r, (u, w)) = (is_stuck r ≡ false) × (count w ≤ total)

  follow-Ended :
      (n total : ℕ) (own : ParsedUri) (original : List ParsedUri) (flags : Flags) (a : Attempt W)
      → ((f : Flags) (us : List ParsedUri) (u : LookupUser) (w : W)
          → suc (calls_left f) ≤ calls_left flags
          → count w + deliveries_left f ≤ total
          → Ended total (
              send_encrypted_message net reroute deliver push_token payload n own original f us
                (u, w)))
      → Within total flags a
      → Ended total (
          follow net reroute deliver push_token payload
            (send_encrypted_message net reroute deliver push_token payload n own original)
            a)
  follow-Ended n total own original flags (ends r (u, w)) rest h = h
  follow-Ended n total own original flags (again f us (u, w)) rest h = rest f us u w h.0 h.1

  send-Ended :
      (n total : ℕ) (own : ParsedUri) (original : List ParsedUri) (flags : Flags)
      (us : List ParsedUri) (u : LookupUser) (w : W)
      → calls_left flags ≤ n
      → count w + deliveries_left flags ≤ total
      → Ended total (
          send_encrypted_message net reroute deliver push_token payload
            (suc n)
            own
            original
            flags
            us
            (u, w))
  unfolding send_encrypted_message
  send-Ended zero total own original flags us u w enough le =
      follow-Ended zero total own original flags _
        (λ f vs v x fewer l. absurd (omega (arith, fewer, enough)))
        (attempt_send-Within total own original flags us u w le)
  send-Ended (suc n) total own original flags us u w enough le =
      follow-Ended (suc n) total own original flags _
        (λ f vs v x fewer l.
          send-Ended n total own original f vs v x (omega (arith, fewer, enough)) l)
        (attempt_send-Within total own original flags us u w le)

  -- Sending a message ends within three runs, and delivers it twice at most, once where it may not
  -- be sent again after a bad signature: for a count that each delivery raises by one, and that
  -- exchanges, registrations and rerouting requests leave.
  pub send_encrypted_message-ends :
      (own : ParsedUri) (original : List ParsedUri) (flags : Flags) (us : List ParsedUri)
      (u : LookupUser) (w : W)
      → ((send_encrypted_message net reroute deliver push_token payload 3 own original flags us
            (u, w)).0
          ≢ out_of_fuel)
        × (count
              (send_encrypted_message net reroute deliver push_token payload 3 own original flags us
                (u, w)).1.1
            ≤ count w + deliveries_left flags)
  send_encrypted_message-ends own original flags us u w =
      let (run, most) =
        send-Ended 2 (count w + deliveries_left flags) own original flags us u w (two_calls flags)
          (omega arith) in
      ((λ e. ground (arith, run, e)), most)
