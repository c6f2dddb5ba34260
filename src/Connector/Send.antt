-- ===== src/Connector/Send.antt =====
-- `sendEncryptedMessage` of imessage/imessage/direct/connector.go, over the lookups and the choice
-- of the devices. The rerouting request, and the sending of the commands with the wait for their
-- acknowledgements (see Split and Ack), are arguments over the state of the network. The narrowing
-- to the device for SMS forwarding is not modelled.
pub mod Attempts
pub mod Safe
use imessage_for_me.Base.{
  ℕ, zero, suc, ◌+◌, ◌-◌, Bool, true, false, not, ◌&&◌, ◌||◌, List, [], ◌∷◌, Option, none, some,
  Bytes, ltb, leb, ◌==◌, if◌then◌else◌, length, is_nil,
}
use imessage_for_me.Base.Assoc.{find}
use imessage_for_me.Uri.{ParsedUri}
use imessage_for_me.Ids.Cache.{LookupIdentity, LookupResult}
use imessage_for_me.Ids.Lookup.{Results, Network, LookupError, LookupUser}
use imessage_for_me.Ids.Lookup.Cached.{LookupParams, Looked, lookup}
use imessage_for_me.Ack.{status_key}
use imessage_for_me.Ack.Report.{UserErrorCounts, SendMessageError, or_else, has_error}
use imessage_for_me.Connector.Destinations.{
  Destined, Constructed, constructed, no_payload, panics, construct_dtl,
}

abbrev pub bad_signature : ℕ
bad_signature = 5032

abbrev pub no_lookup_params : LookupParams
no_lookup_params = record { force = false; limited = false; always_use_cache = false }

abbrev pub forced : LookupParams
forced = record { force = true; limited = false; always_use_cache = false }

-- How the commands and the wait for the acknowledgements end: a failed write, the context, an error
-- of the server, or the report of the acknowledgements.
pub data Delivery : Type 0 where
  not_written context_done : Delivery
  server_error : ℕ → Delivery
  reported : SendMessageError → Delivery

-- How `sendEncryptedMessage` ends; `out_of_fuel` is no end of the source.
pub data Sending : Type 0 where
  lookup_failed not_encrypted nil_result : Sending
  not_on_imessage no_participants not_sent cancelled : Sending
  refused : ℕ → Sending
  sent : Option SendMessageError → Sending
  out_of_fuel : Sending

abbrev any_bad : List (Bytes × ℕ) → Bool
any_bad [] = false
any_bad ((t, s) ∷ fs) = s == bad_signature || any_bad fs

-- The users to send to again.
unfoldable pub resend_to : List (ParsedUri × UserErrorCounts) → List ParsedUri
resend_to [] = []
resend_to ((u, c) ∷ us) = let rest = resend_to us in if any_bad c.failed then u ∷ rest else rest

-- The users of the report where it is to be sent again.
unfoldable pub to_resend : Bool → SendMessageError → List ParsedUri
to_resend is_retriable e =
    if is_retriable && ltb 0 (or_else 0 (find bad_signature e.count_by_error_type))
    then resend_to e.status_by_user
    else []

-- Whether hardly anyone was found, of the participants that the message was first sent to.
abbrev pub is_missing : List ParsedUri → List ParsedUri → Bool
is_missing original not_found =
    leb 2 (length original) && leb (length original - 1) (length not_found)

abbrev pub reported_error : SendMessageError → Option SendMessageError
reported_error e = if has_error e then some e else none

-- What the two flags allow: sending again after a bad signature, and rerouting.
pub record Flags : Type 0 where
  pub is_retriable : Bool
  pub reroutes : Bool

-- What one run of the function does: it ends, or calls itself with other flags and participants.
pub data Attempt (W : Type 0) : Type 0 where
  ends : Sending → LookupUser × W → Attempt W
  again : Flags → List ParsedUri → LookupUser × W → Attempt W

module _ {W : Type 0} {P : Type 0} (net : Network W)
    (reroute : List ParsedUri → LookupUser × W → Bool × (LookupUser × W))
    (deliver : List P → LookupUser × W → Delivery × (LookupUser × W)) (push_token : Bytes)
    (payload : ParsedUri → LookupIdentity → Option P) where
  abbrev pub resent : Flags → SendMessageError → List ParsedUri → Looked W → Attempt W
  resent flags e us ((results, some error), s) = ends (sent (reported_error e)) s
  resent flags e us ((results, none), s) = again (record flags { is_retriable = false }) us s

  -- The report, with the lookup of the users to send to again.
  abbrev pub judge_report :
      ParsedUri → Flags → SendMessageError → List ParsedUri → LookupUser × W → Attempt W
  judge_report own flags e [] s = ends (sent (reported_error e)) s
  judge_report own flags e (u ∷ us) s = resent flags e (u ∷ us) (lookup net own forced (u ∷ us) s)

  abbrev pub judge_delivery : ParsedUri → Flags → Delivery × (LookupUser × W) → Attempt W
  judge_delivery own flags (not_written, s) = ends not_sent s
  judge_delivery own flags (context_done, s) = ends cancelled s
  judge_delivery own flags (server_error e, s) = ends (refused e) s
  judge_delivery own flags (reported e, s) =
      judge_report own flags e (to_resend flags.is_retriable e) s

  abbrev pub judge_reroute : Flags → List ParsedUri → Bool × (LookupUser × W) → Attempt W
  judge_reroute flags us (true, s) = again (record flags { reroutes = false }) us s
  judge_reroute flags us (false, s) = ends not_on_imessage s

  abbrev pub judge_dtl :
      ParsedUri → List ParsedUri → Flags → List ParsedUri → Destined P → LookupUser × W → Attempt W
  judge_dtl own original flags us d s =
      if is_missing original d.not_found
      then (if flags.reroutes
          then judge_reroute flags us (reroute d.not_found s)
          else ends not_on_imessage s)
      else if is_nil d.dtl
      then ends no_participants s
      else judge_delivery own flags (deliver d.dtl s)

  abbrev pub judge_constructed :
      ParsedUri
      → List ParsedUri
      → Flags
      → List ParsedUri
      → Constructed P
      → LookupUser × W
      → Attempt W
  judge_constructed own original flags us (constructed d) s = judge_dtl own original flags us d s
  judge_constructed own original flags us no_payload s = ends not_encrypted s
  judge_constructed own original flags us panics s = ends nil_result s

  abbrev pub judge_lookup :
      ParsedUri → List ParsedUri → Flags → List ParsedUri → Looked W → Attempt W
  judge_lookup own original flags us ((results, some e), s) = ends lookup_failed s
  judge_lookup own original flags us ((results, none), (u, w)) =
      judge_constructed own original flags us
        (construct_dtl u.handles push_token payload (λ v r. false) results us) (u, w)

  -- One run of `sendEncryptedMessage`.
  unfoldable pub attempt_send :
      ParsedUri → List ParsedUri → Flags → List ParsedUri → LookupUser × W → Attempt W
  attempt_send own original flags us s =
      judge_lookup own original flags us (lookup net own no_lookup_params us s)

  abbrev pub follow :
      (Flags → List ParsedUri → LookupUser × W → Sending × (LookupUser × W))
      → Attempt W
      → Sending × (LookupUser × W)
  follow rest (ends r s) = (r, s)
  follow rest (again flags us s) = rest flags us s

  -- `sendEncryptedMessage` with its calls of itself, which the fuel bounds.
  unfoldable pub send_encrypted_message :
      ℕ
      → ParsedUri
      → List ParsedUri
      → Flags
      → List ParsedUri
      → LookupUser × W
      → Sending × (LookupUser × W)
  send_encrypted_message zero own original flags us s = (out_of_fuel, s)
  send_encrypted_message (suc n) own original flags us s =
      follow (send_encrypted_message n own original) (attempt_send own original flags us s)

-- How often the function calls itself at most.
unfoldable pub calls_left : Flags → ℕ
calls_left flags = (if flags.is_retriable then 1 else 0) + (if flags.reroutes then 1 else 0)

-- How often it delivers at most.
unfoldable pub deliveries_left : Flags → ℕ
deliveries_left flags = if flags.is_retriable then 2 else 1
