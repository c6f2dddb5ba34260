-- ===== src/Apns/Marshal/RoundTrip.antt =====
-- A struct that is marshalled comes back from its payload, and from its bytes.
use mathlib.Core.List.{append_assoc}
use imessage_for_me.Base.{
  ℕ, ◌^◌, ◌<◌, ◌≡◌, ◌≢◌, refl, sym, ap, ◌∙◌, Bool, true, false, List, [], ◌∷◌, ◌++◌, none, some,
  Bytes, ◌==◌, arith, All, not, ◌&&◌, and_right, inl, inr, ◌⊎◌,
}
use imessage_for_me.Apns.Command.{
  CommandType, connect, FieldValue, text, slice, boolean, uint8_value, uint16_value, uint32_value,
  uint64_value, flags, slices, Fields, Struct, zero_fields, command_id_to_struct,
  struct_to_command_id,
}
use imessage_for_me.Apns.Payload.{Field, Payload, returned, to_bytes, empty, unmarshal_stream}
use imessage_for_me.Apns.Payload.RoundTrip.{IsValid, unmarshal_stream-to_bytes}
use imessage_for_me.Apns.Marshal.{
  done, deserialize_one_field, serialize_one_field, field_by_id, set_field, to_field, to_struct,
  to_struct_auto, field_output, fields_output, struct_to_payload, marshal,
}

-- The zero value of a field's type.
abbrev pub zero_value : FieldValue → FieldValue
zero_value (text _) = text []
zero_value (slice _) = slice none
zero_value (boolean _) = boolean false
zero_value (uint8_value _) = uint8_value 0
zero_value (uint16_value _) = uint16_value 0
zero_value (uint32_value _) = uint32_value 0
zero_value (uint64_value _) = uint64_value 0
zero_value (flags _) = flags 0
zero_value (slices _) = slices none

abbrev pub zeroed : Fields → Fields
zeroed [] = []
zeroed ((n, v) ∷ fs) = (n, zero_value v) ∷ zeroed fs

-- Values that `deserializeOneField` supports, within the width of their type.
abbrev pub IsReadable : ℕ × FieldValue → Type 0
IsReadable (n, slice _) = Unit
IsReadable (n, boolean _) = Unit
IsReadable (n, uint8_value v) = v < 2 ^ 8
IsReadable (n, uint16_value v) = v < 2 ^ 16
IsReadable (n, uint32_value v) = v < 2 ^ 32
IsReadable (n, uint64_value v) = v < 2 ^ 64
IsReadable (n, text _) = ⊥
IsReadable (n, flags _) = ⊥
IsReadable (n, slices _) = ⊥

-- One value comes back from its bytes, into a zero field of its type.
value_round_trip :
    (n : ℕ) (v : FieldValue)
    → IsReadable (n, v)
    → v ≢ slice none
    → deserialize_one_field (zero_value v) (serialize_one_field v) ≡ done v
unfolding deserialize_one_field serialize_one_field
value_round_trip n (text _) r h = absurd r
value_round_trip n (flags _) r h = absurd r
value_round_trip n (slices _) r h = absurd r
value_round_trip n (slice none) r h = absurd (h refl)
value_round_trip n (slice (some x)) r h = refl
value_round_trip n (boolean true) r h = refl
value_round_trip n (boolean false) r h = refl
value_round_trip n (uint8_value v) r h = refl
value_round_trip n (uint16_value v) r h = ground arith
value_round_trip n (uint32_value v) r h = ground arith
value_round_trip n (uint64_value v) r h = ground arith

-- No field has the number `n`; the numbers of a struct's fields differ.
abbrev pub fresh : ℕ → Fields → Bool
fresh n [] = true
fresh n ((m, v) ∷ fs) = not (m == n) && fresh n fs

abbrev pub distinct : Fields → Bool
distinct [] = true
distinct ((n, v) ∷ fs) = fresh n fs && distinct fs

fresh_behind :
    (m n : ℕ) (v : FieldValue) (xs ys : Fields)
    → fresh m (xs ++ (n, v) ∷ ys) ≡ true
    → (n == m) ≡ false
fresh_behind m n v [] ys h = ground arith
fresh_behind m n v ((k, w) ∷ xs) ys h = fresh_behind m n v xs ys (and_right _ _ h)

distinct-fresh :
    (n : ℕ) (v : FieldValue) (xs ys : Fields)
    → distinct (xs ++ (n, v) ∷ ys) ≡ true
    → fresh n xs ≡ true
distinct-fresh n v [] ys h = refl
distinct-fresh n v ((m, w) ∷ xs) ys h =
    let ahead : fresh m (xs ++ (n, v) ∷ ys) ≡ true = ground arith in
    let behind : distinct (xs ++ (n, v) ∷ ys) ≡ true = ground arith in
    ground (arith, fresh_behind m n v xs ys ahead, distinct-fresh n v xs ys behind)

field_by_id-append :
    (n : ℕ) (v : FieldValue) (xs ys : Fields)
    → fresh n xs ≡ true
    → field_by_id n (xs ++ (n, v) ∷ ys) ≡ some v
unfolding field_by_id
field_by_id-append n v [] ys h = ground arith
field_by_id-append n v ((m, w) ∷ xs) ys h = ground (arith, field_by_id-append n v xs ys)

set_field-append :
    (n : ℕ) (v w : FieldValue) (xs ys : Fields)
    → fresh n xs ≡ true
    → set_field n w (xs ++ (n, v) ∷ ys) ≡ xs ++ (n, w) ∷ ys
unfolding set_field
set_field-append n v w [] ys h = ground arith
set_field-append n v w ((m, u) ∷ xs) ys h = ground (arith, set_field-append n v w xs ys)

to_field_lem :
    (n : ℕ) (v : FieldValue)
    → IsReadable (n, v)
    → v ≢ slice none
    → to_field (zero_value v) (serialize_one_field v) ≡ returned (done v)
unfolding to_field
to_field_lem n (slices _) r h = absurd r
to_field_lem n (text _) r h = absurd r
to_field_lem n (flags _) r h = absurd r
to_field_lem n (slice x) r h = ap returned (value_round_trip n (slice x) r h)
to_field_lem n (boolean x) r h = ap returned (value_round_trip n (boolean x) r h)
to_field_lem n (uint8_value x) r h = ap returned (value_round_trip n (uint8_value x) r h)
to_field_lem n (uint16_value x) r h = ap returned (value_round_trip n (uint16_value x) r h)
to_field_lem n (uint32_value x) r h = ap returned (value_round_trip n (uint32_value x) r h)
to_field_lem n (uint64_value x) r h = ap returned (value_round_trip n (uint64_value x) r h)

-- A readable value is a nil slice, which is not written, or is written as one field.
output-cases :
    (n : ℕ) (v : FieldValue)
    → IsReadable (n, v)
    → ((v ≡ slice none) × (field_output (n, v) ≡ []) × (zero_value v ≡ v))
      ⊎ ((v ≢ slice none)
          × (field_output (n, v) ≡ record { id = n; value = serialize_one_field v } ∷ []))
unfolding field_output
output-cases n (slices _) r = absurd r
output-cases n (text _) r = absurd r
output-cases n (flags _) r = absurd r
output-cases n (slice none) r = inl (refl, refl, refl)
output-cases n (slice (some x)) r = inr ((λ e. cc), refl)
output-cases n (boolean x) r = inr ((λ e. cc), refl)
output-cases n (uint8_value x) r = inr ((λ e. cc), refl)
output-cases n (uint16_value x) r = inr ((λ e. cc), refl)
output-cases n (uint32_value x) r = inr ((λ e. cc), refl)
output-cases n (uint64_value x) r = inr ((λ e. cc), refl)

to_struct_found :
    (f : Field) (fs : List Field) (s : Fields) {v : FieldValue} (w : FieldValue)
    → field_by_id f.id s ≡ some v
    → to_field v f.value ≡ returned (done w)
    → to_struct (f ∷ fs) s ≡ to_struct fs (set_field f.id w s)
unfolding to_struct
to_struct_found f fs s w found read = rw (found, to_struct) (rw read)

-- The loop of `toStruct` over what was written for `fs`, with `xs` filled in before.
to_struct-fields_output :
    (xs fs : Fields)
    → distinct (xs ++ fs) ≡ true
    → All IsReadable fs
    → to_struct (fields_output fs) (xs ++ zeroed fs) ≡ returned (xs ++ fs, none)
unfolding to_struct fields_output
to_struct-fields_output xs [] d r = refl
to_struct-fields_output xs ((n, v) ∷ fs) d r =
    let new = distinct-fresh n v xs fs d in
    let rest : to_struct (fields_output fs) (xs ++ (n, v) ∷ zeroed fs)
        ≡ returned (xs ++ (n, v) ∷ fs, none) =
      simp append_assoc at
        (to_struct-fields_output (xs ++ (n, v) ∷ []) fs (simp append_assoc d) r.1) in
    elim (output-cases n v r.0) [
      | inl (_, out, same) ↦ rw (out, same) rest
      | inr (ne, out) ↦ rw out (
          to_struct_found (record { id = n; value = serialize_one_field v }) (fields_output fs) _ v
            (field_by_id-append n (zero_value v) xs (zeroed fs) new) (to_field_lem n v r.0 ne)
          ∙ rw (set_field-append n (zero_value v) v xs (zeroed fs) new) rest)
    ]

-- A struct has the fields of its type, with values that can be read back.
pub record IsWellTyped (s : Struct) : Type 0 where
  pub layout : zeroed s.fields ≡ zero_fields s.type
  pub readable : All IsReadable s.fields

fresh-zeroed : (n : ℕ) (fs : Fields) → fresh n (zeroed fs) ≡ fresh n fs
fresh-zeroed n [] = refl
fresh-zeroed n ((m, v) ∷ fs) = rw (fresh-zeroed n fs)

distinct-zeroed : (fs : Fields) → distinct (zeroed fs) ≡ distinct fs
distinct-zeroed [] = refl
distinct-zeroed ((n, v) ∷ fs) = rw (fresh-zeroed n fs, distinct-zeroed fs)

distinct-zero_fields : (t : CommandType) → distinct (zero_fields t) ≡ true
distinct-zero_fields connect = refl
distinct-zero_fields _ = refl

-- The payload of a struct under a command number.
abbrev pub payload_of : ℕ → Struct → Payload
payload_of n s = record { id = n; fields = fields_output s.fields }

-- The payload of a struct is read back, by the type that its command number names, as the same
-- struct: when that type is the struct's own and every value has a readable type and its range.
pub to_struct_auto-struct_to_payload :
    (s : Struct) (n : ℕ)
    → struct_to_command_id s.type ≡ some n
    → command_id_to_struct n ≡ some s.type
    → IsWellTyped s
    → (struct_to_payload s ≡ done (payload_of n s))
      × (to_struct_auto (payload_of n s) ≡ returned (done s))
unfolding struct_to_payload to_struct_auto
to_struct_auto-struct_to_payload s n sent received w =
    let apart : distinct s.fields ≡ true =
      sym (distinct-zeroed s.fields) ∙ ap distinct w.layout ∙ distinct-zero_fields s.type in
    (
      rw (sent, struct_to_payload),
      rw (received, to_struct_auto)
          (rw (← w.layout) (rw (to_struct-fields_output [] s.fields apart w.readable))),
    )

-- For a struct whose number names its own type when it is received, whose fields are all booleans,
-- byte slices or integers within their width, and whose payload fits its length fields, `Marshal`
-- gives bytes from which the stream reader and `toStructAuto` rebuild the same struct, and the
-- stream is left behind them. Of the five structs that the client marshals these are the commands
-- to set the state and to acknowledge a message. Not among them are the command to connect, which
-- has a field of flags, the filter of topics, which has fields of slices, and the outgoing message,
-- whose number is received as the incoming one.
pub marshal_received :
    (s : Struct) (n : ℕ) (rest : Bytes)
    → struct_to_command_id s.type ≡ some n
    → command_id_to_struct n ≡ some s.type
    → IsWellTyped s
    → IsValid (payload_of n s)
    → (bytes : Bytes) × (p : Payload) × (marshal s ≡ done bytes)
      × (unmarshal_stream empty (bytes ++ rest) ≡ returned ((p, none), rest))
      × (to_struct_auto p ≡ returned (done s))
unfolding marshal
marshal_received s n rest sent received w v =
    let (made, read) = to_struct_auto-struct_to_payload s n sent received w in
    (
      to_bytes (payload_of n s),
      payload_of n s,
      rw (made, marshal),
      unmarshal_stream-to_bytes (payload_of n s) empty rest v,
      read,
    )
