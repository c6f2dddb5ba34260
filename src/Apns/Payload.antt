-- ===== src/Apns/Payload.antt =====
-- imessage/imessage/direct/apns/binary.go: payloads and their encoding. Numbers are what a Go
-- value of the named width holds. A fault of the runtime (a slice out of range) is `panicked`.
pub mod Faults
pub mod Fields
pub mod RoundTrip
use imessage_for_me.Base.{
  ℕ, zero, suc, ◌+◌, ◌%◌, ◌^◌, List, [], ◌∷◌, ◌++◌, Option, none, some, Bytes, ltb, leb, ◌==◌,
  if◌then◌else◌, length, take, drop,
}
use imessage_for_me.Apns.Word.{be16, be32, uint16, uint32}

pub record Field : Type 0 where
  pub id : ℕ
  pub value : Bytes

pub record Payload : Type 0 where
  pub id : ℕ
  pub fields : List Field

-- The errors of this file, and those of `io.ReadFull`.
pub data Error : Type 0 where
  empty_payload invalid_payload_length invalid_field_length : Error
  eof unexpected_eof : Error

-- What a call comes to. `out_of_fuel` is no Go outcome: a loop was given too few rounds.
pub data Run {ℓ} (A : Type ℓ) : Type ℓ where
  returned : A → Run A
  panicked : Run A
  out_of_fuel : Run A

infixl 5 ◌>>=◌
abbrev pub ◌>>=◌ {ℓ κ} : {A : Type ℓ} {B : Type κ} → Run A → (A → Run B) → Run B
returned a >>= f = f a
panicked >>= f = panicked
out_of_fuel >>= f = out_of_fuel

-- `FindField`: nil where no field has the number.
find_in : ℕ → List Field → Option Bytes
find_in n [] = none
find_in n (f ∷ fs) = if f.id == n then some f.value else find_in n fs

unfoldable pub find_field : Payload → ℕ → Option Bytes
unfolding find_in
find_field p n = find_in n p.fields

-- The bytes that the loop of `ToBytes` writes for one field.
abbrev pub field_bytes : Field → Bytes
field_bytes f = f.id ∷ (be16 (length f.value) ++ f.value)

unfoldable pub fields_bytes : List Field → Bytes
fields_bytes [] = []
fields_bytes (f ∷ fs) = field_bytes f ++ fields_bytes fs

-- The first loop of `ToBytes`: the length of all fields (`length - 5` in the source).
unfoldable pub fields_length : List Field → ℕ
fields_length [] = 0
fields_length (f ∷ fs) = 3 + length f.value + fields_length fs

unfoldable pub to_bytes : Payload → Bytes
to_bytes p = p.id ∷ (be32 (fields_length p.fields) ++ fields_bytes p.fields)

-- `unmarshalFieldsFromBytes`: `rest` is `data[i:]`, and the loop runs while it has three bytes. The
-- fields read before an error stay in the payload.
unfoldable pub fields_loop : ℕ → Bytes → Payload → Run (Payload × Option Error)
fields_loop zero rest p = out_of_fuel
fields_loop (suc fuel) (a ∷ hi ∷ lo ∷ rest) p =
    let n = uint16 hi lo in
    let field : Field = record { id = a; value = take n rest } in
    let more = fields_loop fuel (drop n rest) (record p { fields = p.fields ++ field ∷ [] }) in
    if ltb (length rest) n then returned (p, some invalid_field_length) else more
fields_loop (suc fuel) rest p = returned (p, none)

-- A round takes three bytes at least, so one round more than the bytes is enough.
unfoldable pub unmarshal_fields : Payload → Bytes → Run (Payload × Option Error)
unmarshal_fields p bytes = fields_loop (suc (length bytes)) bytes p

-- The slice `data[5 : 5+length]` of a slice with `rest` behind its first five bytes and with
-- `spare` bytes of capacity behind its length. The sum is one of `uint32` numbers.
unfoldable pub body_slice : ℕ → Bytes → Bytes → Run Bytes
body_slice n rest spare =
    let end = (5 + n) % 2 ^ 32 in
    if ltb end 5
    then panicked
    else if ltb (length (rest ++ spare) + 5) end
    then panicked
    else returned (take n (rest ++ spare))

-- `UnmarshalBinary` on a slice and the bytes of its array behind it.
unfoldable pub unmarshal_binary : Payload → Bytes → Bytes → Run (Payload × Option Error)
unmarshal_binary p [] spare = returned (p, some empty_payload)
unmarshal_binary p (zero ∷ rest) spare = returned (record p { id = 0 }, none)
unmarshal_binary p (c ∷ a ∷ b ∷ d ∷ e ∷ rest) spare = do
  body ← body_slice (uint32 a b d e) rest spare
  unmarshal_fields (record p { id = c }) body
unmarshal_binary p (c ∷ rest) spare = returned (record p { id = c }, some invalid_payload_length)

-- `io.ReadFull` of `n` bytes from a stream that ends behind its last byte: the bytes, the error
-- and what is left of the stream.
unfoldable pub read_full : ℕ → Bytes → Bytes × Option Error × Bytes
read_full n stream =
    if leb n (length stream)
    then (take n stream, none, drop n stream)
    else if length stream == 0
    then ([], some eof, [])
    else (stream, some unexpected_eof, [])

-- `UnmarshalBinaryStream` behind its third read.
stream_fields : Payload → Bytes → Option Error → Bytes → Run ((Payload × Option Error) × Bytes)
stream_fields p body (some e) left = returned ((p, some e), left)
stream_fields p body none left = do out ← unmarshal_fields p body; returned (out, left)

-- The same behind its second read, of the length. A read that succeeds fills the four bytes.
stream_length : Payload → Bytes → Option Error → Bytes → Run ((Payload × Option Error) × Bytes)
unfolding stream_fields
stream_length p head (some e) left = returned ((p, some e), left)
stream_length p (a ∷ b ∷ c ∷ d ∷ _) none left =
    let (body, e, left') = read_full (uint32 a b c d) left in stream_fields p body e left'
stream_length p _ none left = panicked

-- The same behind its first read, of the command number.
stream_command : Payload → Bytes → Option Error → Bytes → Run ((Payload × Option Error) × Bytes)
unfolding stream_length
stream_command p head (some e) left = returned ((p, some e), left)
stream_command p (zero ∷ _) none left = returned ((record p { id = 0 }, none), left)
stream_command p (c ∷ _) none left =
    let (head, e, left') = read_full 4 left in stream_length (record p { id = c }) head e left'
stream_command p [] none left = panicked

-- `UnmarshalBinaryStream`, with what is left of the stream.
unfoldable pub unmarshal_stream : Payload → Bytes → Run ((Payload × Option Error) × Bytes)
unfolding stream_command
unmarshal_stream p stream = let (head, e, left) = read_full 1 stream in stream_command p head e left

abbrev pub empty : Payload
empty = record { id = 0; fields = [] }
