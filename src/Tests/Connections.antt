-- ===== src/Tests/Connections.antt =====
-- Waiting requests, incoming messages, the command processor and the keepalives.
use imessage_for_me.Base.{
  ℕ, zero, suc, ◌+◌, ◌*◌, ◌≡◌, refl, true, List, [], ◌∷◌, some, Bytes, codes, equal, All, arith,
}
use imessage_for_me.Base.Assoc.{bytes_key, number_key}
use imessage_for_me.Waiting.{
  Waiting, Call, waits, cancels, receives, no_waiters, new_channel, wait, receive, run,
}
use imessage_for_me.Waiting.Once.{HasOneEach, run-HasOneEach, receive-run-wait}
use imessage_for_me.Ipc.{
  Message, Processor, value, Runs, starts, reads, finishes, new_processor, read, finish,
  has_handler,
}
use imessage_for_me.Ipc.Answers.{asked, answered, lost, being_handled, asked-Runs}
use imessage_for_me.Imux.{
  Imux, Endpoint, HttpResult, http_response, rate_ms, no_body, ticks, stops, calls, second,
}
use imessage_for_me.Imux.Rates.{IsBounded, calls-Inv}

-- Responses are pairs of a key and a text.
abbrev key_of : ℕ × Bytes → ℕ
key_of m = m.0

abbrev wait_calls : List (Call ℕ (ℕ × Bytes))
wait_calls =
    waits 1
    ∷ waits 2
    ∷ receives (2, codes "two")
    ∷ receives (2, codes "again")
    ∷ cancels 1
    ∷ waits 1
    ∷ receives (1, codes "one")
    ∷ []

run-HasOneEach_example :
    HasOneEach key_of (run key_of wait_calls no_waiters).sent
    × All (λ e. key_of e.1 ≡ e.0.made_for) (run key_of wait_calls no_waiters).sent
run-HasOneEach_example = run-HasOneEach key_of wait_calls

abbrev others : List (Call ℕ (ℕ × Bytes))
others = waits 2 ∷ receives (2, codes "two") ∷ cancels 3 ∷ []

abbrev unasked : Waiting ℕ (ℕ × Bytes)
unasked = no_waiters

abbrev one : ℕ × Bytes
one = (1, codes "one")

receive-run-wait_example :
    ((receive 1 one (run key_of others (wait 1 unasked))).0 ≡ true)
    × ((receive 1 one (run key_of others (wait 1 unasked))).1.sent
        ≡ (new_channel 1 unasked, one) ∷ (run key_of others (wait 1 unasked)).sent)
receive-run-wait_example = receive-run-wait key_of others one unasked (refl, (refl, (refl, tt)))

-- A ping that is read, handled and answered.
abbrev ping : Message
ping = record { command = codes "ping"; id = 5; data_of = [] }

abbrev idle : Processor
idle = new_processor (codes "ping" ∷ [])

abbrev done : Processor
done = finish true [] ping [] (value (codes "pong")) (read true ping idle)

pinged : Runs idle (ping ∷ []) done
unfolding read new_processor has_handler equal
pinged = finishes true [] ping [] (value (codes "pong")) refl (reads true ping starts)

asked-Runs_example :
    asked 5 (ping ∷ []) ≡ answered 5 done.out + lost 5 done.logged + being_handled 5 done.running
asked-Runs_example = asked-Runs (codes "ping" ∷ []) (ping ∷ []) done 5 pinged refl

-- A server that asks for a keepalive each five seconds, and then for no more.
abbrev served_rate : Endpoint → ℕ → HttpResult × ℕ
served_rate e zero = (http_response 204 no_body, 0)
served_rate e (suc n) = (http_response 200 (rate_ms 5000), n)

abbrev looping : Imux
looping = record { has_url = true; has_cancel = true; loop_rate = some (2 * second) }

calls-Inv_example :
    IsBounded
      (calls served_rate (ticks ∷ ticks ∷ stops ∷ []) (looping, 1)).0.has_cancel
      (calls served_rate (ticks ∷ ticks ∷ stops ∷ []) (looping, 1)).0.loop_rate
calls-Inv_example = calls-Inv served_rate (ticks ∷ ticks ∷ stops ∷ []) looping 1 (omega arith, refl)
