-- ===== src/Apns/Marshal.antt =====
-- imessage/imessage/direct/apns/marshal.go: command structs to payloads and back.
pub mod RoundTrip
pub mod Faults
use imessage_for_me.Base.{
  ℕ, ◌+◌, ◌*◌, ◌^◌, Bool, true, false, List, [], ◌∷◌, ◌++◌, map, Option, none, some, Bytes, ltb,
  ◌==◌, if◌then◌else◌,
}
use imessage_for_me.Apns.Command.{
  FieldValue, text, slice, boolean, uint8_value, uint16_value, uint32_value, uint64_value, flags,
  slices, Fields, Struct, zero_fields, command_id_to_struct, struct_to_command_id,
}
use imessage_for_me.Apns.Payload.{
  Field, Payload, Run, returned, panicked, out_of_fuel, ◌>>=◌, to_bytes,
}
use imessage_for_me.Apns.Word.{be16, be32, be64, uint16, uint32}

pub data MarshalError : Type 0 where
  unknown_command unknown_payload_type too_short unsupported_type : MarshalError

pub data Attempt {ℓ} (A : Type ℓ) : Type ℓ where
  done : A → Attempt A
  failed : MarshalError → Attempt A

-- `deserializeOneField` into a field with the given value.
unfoldable pub deserialize_one_field : FieldValue → Bytes → Attempt FieldValue
deserialize_one_field (slice _) bytes = done (slice (some bytes))
deserialize_one_field (boolean _) (a ∷ _) = done (boolean (ltb 0 a))
deserialize_one_field (boolean _) [] = failed too_short
deserialize_one_field (uint8_value _) (a ∷ _) = done (uint8_value a)
deserialize_one_field (uint8_value _) [] = failed too_short
deserialize_one_field (uint16_value _) (a ∷ b ∷ _) = done (uint16_value (uint16 a b))
deserialize_one_field (uint16_value _) _ = failed too_short
deserialize_one_field (uint32_value _) (a ∷ b ∷ c ∷ d ∷ _) = done (uint32_value (uint32 a b c d))
deserialize_one_field (uint32_value _) _ = failed too_short
deserialize_one_field (uint64_value _) (a ∷ b ∷ c ∷ d ∷ e ∷ f ∷ g ∷ h ∷ _) =
    done (uint64_value (uint32 a b c d * 2 ^ 32 + uint32 e f g h))
deserialize_one_field (uint64_value _) _ = failed too_short
deserialize_one_field _ bytes = failed unsupported_type

-- The field that the tag number names, and its value replaced.
unfoldable pub field_by_id : ℕ → Fields → Option FieldValue
field_by_id n [] = none
field_by_id n ((m, v) ∷ fs) = if m == n then some v else field_by_id n fs

unfoldable pub set_field : ℕ → FieldValue → Fields → Fields
set_field n w [] = []
set_field n w ((m, v) ∷ fs) = if m == n then (m, w) ∷ fs else (m, v) ∷ set_field n w fs

-- The body of the loop of `toStruct` for a field that the struct has. A nil slice of slices is set
-- to a pointer, which faults; one that is not nil has a type that `deserializeOneField` refuses.
unfoldable pub to_field : FieldValue → Bytes → Run (Attempt FieldValue)
to_field (slices none) bytes = panicked
to_field (slices (some xs)) bytes = returned (deserialize_one_field (slices (some xs)) bytes)
to_field v bytes = returned (deserialize_one_field v bytes)

-- What follows in one turn of that loop: a failure ends it with the struct as it is.
store_field :
    (Fields → Run (Fields × Option MarshalError))
    → ℕ
    → Fields
    → Attempt FieldValue
    → Run (Fields × Option MarshalError)
store_field again n s (done v) = again (set_field n v s)
store_field again n s (failed e) = returned (s, some e)

-- The loop of `toStruct`: fields that the struct does not have are passed over.
unfoldable pub to_struct : List Field → Fields → Run (Fields × Option MarshalError)
unfolding store_field
to_struct [] s = returned (s, none)
to_struct (f ∷ fs) s = elim (field_by_id f.id s) [
  | none ↦ to_struct fs s
  | some v ↦ to_field v f.value >>= store_field (to_struct fs) f.id s
]

-- `toStructAuto`: a fresh struct of the type that the command number names.
finish_struct : Struct → Fields × Option MarshalError → Attempt Struct
finish_struct s (fields, none) = done (record s { fields = fields })
finish_struct s (fields, some e) = failed e

unfoldable pub to_struct_auto : Payload → Run (Attempt Struct)
unfolding finish_struct
to_struct_auto p = elim (command_id_to_struct p.id) [
  | none ↦ returned (failed unknown_command)
  | some t ↦
      let s : Struct = record { type = t; fields = zero_fields t } in
      do out ← to_struct p.fields s.fields; returned (finish_struct s out)
]

-- `serializeOneField`, which has no failure on the types of a command's fields.
unfoldable pub serialize_one_field : FieldValue → Bytes
serialize_one_field (text s) = s
serialize_one_field (slice none) = []
serialize_one_field (slice (some bytes)) = bytes
serialize_one_field (boolean true) = 1 ∷ []
serialize_one_field (boolean false) = 0 ∷ []
serialize_one_field (uint8_value n) = n ∷ []
serialize_one_field (uint16_value n) = be16 n
serialize_one_field (uint32_value n) = be32 n
serialize_one_field (uint64_value n) = be64 n
serialize_one_field (flags n) = be32 n
serialize_one_field (slices _) = []

-- What the loop of `structToPayload` appends for one field: nothing for a nil slice, one payload
-- field for each element of a slice of slices, and one for any other value.
unfoldable pub field_output : ℕ × FieldValue → List Field
field_output (n, slice none) = []
field_output (n, slices none) = []
field_output (n, slices (some xs)) = map (λ x. record { id = n; value = x }) xs
field_output (n, v) = record { id = n; value = serialize_one_field v } ∷ []

unfoldable pub fields_output : Fields → List Field
fields_output [] = []
fields_output (f ∷ fs) = field_output f ++ fields_output fs

-- `structToPayload` and `Marshal`.
unfoldable pub struct_to_payload : Struct → Attempt Payload
struct_to_payload s = elim (struct_to_command_id s.type) [
  | none ↦ failed unknown_payload_type
  | some n ↦ done (record { id = n; fields = fields_output s.fields })
]

unfoldable pub marshal : Struct → Attempt Bytes
marshal s = elim (struct_to_payload s) [ failed e ↦ failed e | done p ↦ done (to_bytes p) ]
