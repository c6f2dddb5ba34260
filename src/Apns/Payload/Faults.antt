-- ===== src/Apns/Payload/Faults.antt =====
-- The inputs on which `UnmarshalBinary` faults, and that the stream reader always returns.
use imessage_for_me.Base.{
  ℕ, zero, suc, ◌+◌, ◌%◌, ◌^◌, ◌<◌, ◌≡◌, ◌↔◌, ◌⊎◌, refl, [], ◌∷◌, ◌++◌, Option, none, some, arith,
  Bytes, length, take, length-drop, length-take_le, length-append,
}
use imessage_for_me.Apns.Word.{uint32}
use imessage_for_me.Apns.Payload.{
  Payload, Error, Run, returned, panicked, out_of_fuel, unmarshal_fields, unmarshal_binary,
  unmarshal_stream, body_slice, read_full, stream_fields, stream_length, stream_command, ◌>>=◌,
}
use imessage_for_me.Apns.Payload.Fields.{fields_loop_total}

pub unmarshal_fields_total :
    (p : Payload) (bytes : Bytes)
    → (out : Payload × Option Error) × (unmarshal_fields p bytes ≡ returned out)
unfolding unmarshal_fields
unmarshal_fields_total p bytes = fields_loop_total (suc (length bytes)) bytes p (omega arith)

-- On five bytes or more with a command number that is not 0, `UnmarshalBinary` faults exactly when
-- the end of the body, 5 more than the declared length in 32 bits, lies before the body's start or
-- behind the capacity of the slice.
pub unmarshal_binary_faults :
    (p : Payload) (c a b d e : ℕ) (rest spare : Bytes)
    → 0 < c
    → (unmarshal_binary p (c ∷ a ∷ b ∷ d ∷ e ∷ rest) spare ≡ panicked) ↔ (
        ((5 + uint32 a b d e) % 2 ^ 32 < 5)
        ⊎ (length rest + length spare + 5 < (5 + uint32 a b d e) % 2 ^ 32))
unfolding unmarshal_binary body_slice
unmarshal_binary_faults p zero a b d e rest spare h = absurd (omega arith)
unmarshal_binary_faults p (suc c) a b d e rest spare h =
    let (out, ran) =
      unmarshal_fields_total (record p { id = suc c }) (take (uint32 a b d e) (rest ++ spare)) in
    ground (arith, length-append rest spare, ran)

-- What a read leaves is shorter by what it took.
read_full_left :
    (n : ℕ) (s : Bytes) → (read_full n s).1 ≡ none → length (read_full n s).2 + n ≡ length s
unfolding read_full
read_full_left n s h = ground (arith, length-drop n s)

read_full_bytes : (n : ℕ) (s : Bytes) → (read_full n s).1 ≡ none → length (read_full n s).0 ≡ n
unfolding read_full
read_full_bytes n s h = ground (arith, length-take_le n s)

-- The stream reader returned, and without an error it took a byte at least.
abbrev pub Progress : Bytes → Run ((Payload × Option Error) × Bytes) → Type 0
Progress s (returned ((p, none), left)) = length left < length s
Progress s (returned ((p, some e), left)) = Unit
Progress s panicked = ⊥
Progress s out_of_fuel = ⊥

fields-Progress :
    (s left : Bytes) (r : Run (Payload × Option Error)) (out : Payload × Option Error)
    → r ≡ returned out
    → length left < length s
    → Progress s (r >>= λ o. returned (o, left))
fields-Progress s left r (q, none) ran h = rw ran h
fields-Progress s left r (q, some e) ran h = rw ran tt

stream_fields-Progress :
    (p : Payload) (body : Bytes) (e : Option Error) (left s : Bytes)
    → (e ≡ none → length left < length s)
    → Progress s (stream_fields p body e left)
unfolding stream_fields
stream_fields-Progress p body (some e) left s h = tt
stream_fields-Progress p body none left s h =
    let (out, ran) = unmarshal_fields_total p body in fields-Progress s left _ out ran (h refl)

stream_length-Progress :
    (p : Payload) (head : Bytes) (e : Option Error) (left s : Bytes)
    → (e ≡ none → length head ≡ 4)
    → (e ≡ none → length left < length s)
    → Progress s (stream_length p head e left)
unfolding stream_length
stream_length-Progress p head (some e) left s full h = tt
stream_length-Progress p (a ∷ b ∷ c ∷ d ∷ more) none left s full h =
    stream_fields-Progress p _ _ _ s
      (λ k. omega (arith, read_full_left (uint32 a b c d) left k, h refl))
stream_length-Progress p [] none left s full h = absurd (omega (arith, full refl))
stream_length-Progress p (a ∷ []) none left s full h = absurd (omega (arith, full refl))
stream_length-Progress p (a ∷ b ∷ []) none left s full h = absurd (omega (arith, full refl))
stream_length-Progress p (a ∷ b ∷ c ∷ []) none left s full h = absurd (omega (arith, full refl))

stream_command-Progress :
    (p : Payload) (head : Bytes) (e : Option Error) (left s : Bytes)
    → (e ≡ none → length head ≡ 1)
    → (e ≡ none → length left < length s)
    → Progress s (stream_command p head e left)
unfolding stream_command
stream_command-Progress p head (some e) left s full h = tt
stream_command-Progress p (zero ∷ more) none left s full h = h refl
stream_command-Progress p (suc c ∷ more) none left s full h =
    stream_length-Progress _ _ _ _ s (read_full_bytes 4 left)
      (λ k. omega (arith, read_full_left 4 left k, h refl))
stream_command-Progress p [] none left s full h = absurd (omega (arith, full refl))

pub unmarshal_stream-Progress : (p : Payload) (s : Bytes) → Progress s (unmarshal_stream p s)
unfolding unmarshal_stream
unmarshal_stream-Progress p s =
    stream_command-Progress p _ _ _ s (read_full_bytes 1 s)
      (λ k. omega (arith, read_full_left 1 s k))
