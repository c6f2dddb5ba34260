-- ===== src/Tests/Frames.antt =====
-- Payloads and commands of the Apple Push Notification service, on small examples.
use imessage_for_me.Base.{
  ℕ, ◌+◌, ◌^◌, ◌%◌, ◌<◌, ◌≡◌, ◌⊎◌, ◌↔◌, refl, [], ◌∷◌, ◌++◌, none, Bytes, length, arith,
}
use imessage_for_me.Apns.Word.{uint32}
use imessage_for_me.Apns.Payload.{
  Payload, returned, panicked, to_bytes, fields_length, unmarshal_binary, unmarshal_stream, empty,
}
use imessage_for_me.Apns.Payload.RoundTrip.{IsValid, unmarshal_binary-to_bytes}
use imessage_for_me.Apns.Payload.Faults.{unmarshal_binary_faults}
use imessage_for_me.Apns.Reader.{read_loop, frames, received, read_loop-frames}
use imessage_for_me.Apns.Command.{set_state, Struct, uint8_value, uint32_value}
use imessage_for_me.Apns.Marshal.{
  done, marshal, to_struct_auto, fields_output, field_output, serialize_one_field,
}
use imessage_for_me.Apns.Marshal.RoundTrip.{IsWellTyped, payload_of, marshal_received}

-- A payload with an empty and a full field.
abbrev small : Payload
small = record {
  id = 10;
  fields = record { id = 4; value = 1 ∷ 2 ∷ 3 ∷ [] } ∷ record { id = 5; value = [] } ∷ [];
}

small-IsValid : IsValid small
unfolding fields_length
small-IsValid = record {
  numbered = omega arith;
  fits = (omega arith, (omega arith, tt));
  total = omega arith;
}

read_loop-frames_example :
    read_loop 3 (frames (small ∷ small ∷ [])) ≡ returned (received (small ∷ small ∷ []))
read_loop-frames_example =
    read_loop-frames (small ∷ small ∷ []) 3 (small-IsValid, (small-IsValid, tt)) (omega arith)

unmarshal_binary-to_bytes_example :
    unmarshal_binary empty (to_bytes small) (7 ∷ [])
    ≡ returned (record { id = 10; fields = small.fields }, none)
unmarshal_binary-to_bytes_example = unmarshal_binary-to_bytes small empty (7 ∷ []) small-IsValid

-- A length of 2 in front of one byte, with no capacity behind it.
unmarshal_binary_faults_example :
    (unmarshal_binary empty (8 ∷ 0 ∷ 0 ∷ 0 ∷ 2 ∷ 1 ∷ []) [] ≡ panicked) ↔ (
      ((5 + uint32 0 0 0 2) % 2 ^ 32 < 5)
      ⊎ (length {A = ℕ} (1 ∷ []) + length {A = ℕ} [] + 5 < (5 + uint32 0 0 0 2) % 2 ^ 32))
unmarshal_binary_faults_example = unmarshal_binary_faults empty 8 0 0 0 2 (1 ∷ []) [] (omega arith)

-- The state that the connector sets after it has connected.
abbrev state : Struct
state = record { type = set_state; fields = (1, uint8_value 1) ∷ (2, uint32_value 0x7fffffff) ∷ [] }

state-IsWellTyped : IsWellTyped state
state-IsWellTyped = record { layout = refl; readable = (omega arith, (omega arith, tt)) }

state-IsValid : IsValid (payload_of 20 state)
unfolding fields_length fields_output field_output serialize_one_field
state-IsValid = record {
  numbered = omega arith;
  fits = (omega arith, (omega arith, tt));
  total = omega arith;
}

marshal_received_example :
    (bytes : Bytes) × (p : Payload) × (marshal state ≡ done bytes)
    × (unmarshal_stream empty (bytes ++ 9 ∷ []) ≡ returned ((p, none), 9 ∷ []))
    × (to_struct_auto p ≡ returned (done state))
marshal_received_example =
    marshal_received state 20 (9 ∷ []) refl refl state-IsWellTyped state-IsValid
