-- ===== src/Apns/Reader.antt =====
-- The goroutine of `Connection.Run` in imessage/imessage/direct/apns/connection.go that reads the
-- socket: what it sends on `readChan`, in order, for a stream of bytes that ends.
use imessage_for_me.Base.{
  ℕ, zero, suc, ◌<◌, ◌≡◌, refl, List, [], ◌∷◌, ◌++◌, Option, none, some, arith, Bytes, length, All,
}
use imessage_for_me.Apns.Payload.{
  Payload, Error, eof, Run, returned, panicked, out_of_fuel, ◌>>=◌, to_bytes, unmarshal_stream,
  empty, read_full,
}
use imessage_for_me.Apns.Payload.RoundTrip.{IsValid, unmarshal_stream-to_bytes}
use imessage_for_me.Apns.Payload.Faults.{Progress, unmarshal_stream-Progress}

-- One turn of the loop: the payload is sent, and an error ends the goroutine.
read_turn :
    (Bytes → Run (List (Payload × Option Error)))
    → (Payload × Option Error) × Bytes
    → Run (List (Payload × Option Error))
read_turn again ((p, some e), left) = returned ((p, some e) ∷ [])
read_turn again ((p, none), left) = do more ← again left; returned ((p, none) ∷ more)

-- The loop; the context is not cancelled.
unfoldable pub read_loop : ℕ → Bytes → Run (List (Payload × Option Error))
unfolding read_turn
read_loop zero stream = out_of_fuel
read_loop (suc fuel) stream = do out ← unmarshal_stream empty stream; read_turn (read_loop fuel) out

turn_total :
    (again : Bytes → Run (List (Payload × Option Error))) (s : Bytes)
    (r : Run ((Payload × Option Error) × Bytes))
    → Progress s r
    → ((left : Bytes)
        → length left < length s
        → (out : List (Payload × Option Error)) × (again left ≡ returned out))
    → (out : List (Payload × Option Error)) × ((r >>= read_turn again) ≡ returned out)
unfolding read_turn
turn_total again s (returned ((p, none), left)) h ih =
    let (out, ran) = ih left h in ((p, none) ∷ out, rw ran)
turn_total again s (returned ((p, some e), left)) h ih = ((p, some e) ∷ [], refl)
turn_total again s panicked h ih = absurd h
turn_total again s out_of_fuel h ih = absurd h

-- On any stream, with more rounds than the stream has bytes, the reader ends without a fault: every
-- turn that goes on takes a byte.
pub read_loop_total :
    (fuel : ℕ) (stream : Bytes)
    → length stream < fuel
    → (out : List (Payload × Option Error)) × (read_loop fuel stream ≡ returned out)
unfolding read_loop
read_loop_total zero stream h = absurd (omega arith)
read_loop_total (suc fuel) stream h =
    turn_total (read_loop fuel) stream (unmarshal_stream empty stream)
      (unmarshal_stream-Progress empty stream)
      (λ left less. read_loop_total fuel left (omega arith))

-- The bytes of payloads written one behind the other.
unfoldable pub frames : List Payload → Bytes
frames [] = []
frames (p ∷ ps) = to_bytes p ++ frames ps

abbrev pub received : List Payload → List (Payload × Option Error)
received [] = (empty, some eof) ∷ []
received (p ∷ ps) = (p, none) ∷ received ps

-- Payloads written one behind the other arrive as they were sent, each once and in order, and the
-- end of the stream is reported after the last: for payloads with a command number that is not 0
-- and with lengths that fit, and with more rounds than payloads.
pub read_loop-frames :
    (ps : List Payload) (fuel : ℕ)
    → All IsValid ps
    → length ps < fuel
    → read_loop fuel (frames ps) ≡ returned (received ps)
unfolding read_loop frames
read_loop-frames [] zero v h = absurd (omega arith)
read_loop-frames [] (suc fuel) v h = unfold unmarshal_stream read_full in refl
read_loop-frames (p ∷ ps) zero v h = absurd (omega arith)
read_loop-frames (p ∷ ps) (suc fuel) v h =
    rw (unmarshal_stream-to_bytes p empty (frames ps) v.0)
      (rw (read_loop-frames ps fuel v.1 (omega arith)))
