-- ===== src/Apns/Payload/RoundTrip.antt =====
-- The round trips of binary.go: `UnmarshalBinary` and `UnmarshalBinaryStream` against `ToBytes`,
-- and the inputs on which each of them does not return.
use imessage_for_me.Base.{
  ℕ, zero, suc, ◌+◌, ◌/◌, ◌%◌, ◌^◌, ◌<◌, ◌≡◌, List, [], ◌∷◌, ◌++◌, none, arith, Bytes, length,
  length-append, take-append_length, drop-append_length, All,
}
use imessage_for_me.Apns.Word.{be32, uint32, uint32-be32}
use imessage_for_me.Apns.Payload.{
  Field, Payload, returned, fields_bytes, fields_length, unmarshal_fields, to_bytes,
  unmarshal_binary, unmarshal_stream, body_slice, read_full,
}
use imessage_for_me.Apns.Payload.Fields.{fields_loop-fields_bytes, Fits, length-fields_bytes}

-- What `ToBytes` can write: a command number that is not 0, fields that fit their 16-bit lengths,
-- and a total that fits 32 bits with the five bytes in front.
pub record IsValid (p : Payload) : Type 0 where
  pub numbered : 0 < p.id
  pub fits : All Fits p.fields
  pub total : fields_length p.fields + 5 < 2 ^ 32

unmarshal_fields_lem :
    (fs : List Field) (p : Payload)
    → All Fits fs
    → unmarshal_fields p (fields_bytes fs) ≡ returned (record p { fields = p.fields ++ fs }, none)
unfolding unmarshal_fields
unmarshal_fields_lem fs p fits = fields_loop-fields_bytes fs _ p fits (omega arith)

body_slice_lem :
    (body spare : Bytes)
    → length body + 5 < 2 ^ 32
    → body_slice (length body) body spare ≡ returned body
unfolding body_slice
body_slice_lem body spare h =
    ground (arith, length-append body spare, take-append_length body spare)

-- The length that is read back is the number of bytes behind the header.
size-be32 :
    (fs : List Field)
    → fields_length fs < 2 ^ 32
    → uint32
        (fields_length fs / 2 ^ 24 % 256)
        (fields_length fs / 2 ^ 16 % 256)
        (fields_length fs / 2 ^ 8 % 256)
        (fields_length fs % 256)
      ≡ length (fields_bytes fs)
size-be32 fs h = omega (arith, uint32-be32 (fields_length fs), length-fields_bytes fs)

pub read_full-append : (xs ys : Bytes) → read_full (length xs) (xs ++ ys) ≡ (xs, none, ys)
unfolding read_full
read_full-append xs ys =
    ground (arith, length-append xs ys, take-append_length xs ys, drop-append_length xs ys)

binary-of_parts :
    (c : ℕ) (fs : List Field) (q : Payload) (spare : Bytes)
    → 0 < c
    → All Fits fs
    → fields_length fs + 5 < 2 ^ 32
    → unmarshal_binary q (to_bytes (record { id = c; fields = fs })) spare
      ≡ returned (record { id = c; fields = q.fields ++ fs }, none)
unfolding unmarshal_binary to_bytes
binary-of_parts zero fs q spare pos fits h = absurd (omega arith)
binary-of_parts (suc c) fs q spare pos fits h =
    let room : length (fields_bytes fs) + 5 < 2 ^ 32 = omega (arith, length-fields_bytes fs) in
    rw (size-be32 fs (omega arith), body_slice_lem (fields_bytes fs) spare room)
      (unmarshal_fields_lem fs _ fits)

stream-of_parts :
    (c : ℕ) (fs : List Field) (q : Payload) (rest : Bytes)
    → 0 < c
    → All Fits fs
    → fields_length fs < 2 ^ 32
    → unmarshal_stream q (to_bytes (record { id = c; fields = fs }) ++ rest)
      ≡ returned ((record { id = c; fields = q.fields ++ fs }, none), rest)
unfolding unmarshal_stream to_bytes
stream-of_parts zero fs q rest pos fits h = absurd (omega arith)
stream-of_parts (suc c) fs q rest pos fits h =
    let size : Bytes = be32 (fields_length fs) in
    let body : Bytes = fields_bytes fs in
    rw (
      read_full-append (suc c ∷ []) (size ++ (body ++ rest)),
      read_full-append size (body ++ rest),
      size-be32 fs h,
      read_full-append body rest,
      unmarshal_fields_lem fs (record q { id = suc c }) fits,
    )

-- `UnmarshalBinary` of what `ToBytes` wrote adds the fields in order to the receiver's, takes over
-- the command number and reports no error, whatever capacity lies behind the slice: for a payload
-- with a command number that is not 0 and with lengths that fit.
pub unmarshal_binary-to_bytes :
    (p q : Payload) (spare : Bytes)
    → IsValid p
    → unmarshal_binary q (to_bytes p) spare
      ≡ returned (record { id = p.id; fields = q.fields ++ p.fields }, none)
unmarshal_binary-to_bytes p q spare v =
    binary-of_parts p.id p.fields q spare v.numbered v.fits v.total

-- `UnmarshalBinaryStream` reads one payload that `ToBytes` wrote, adding its fields in order to the
-- receiver's, and leaves the stream just behind it: for a payload with a command number that is not
-- 0 and with lengths that fit.
pub unmarshal_stream-to_bytes :
    (p q : Payload) (rest : Bytes)
    → IsValid p
    → unmarshal_stream q (to_bytes p ++ rest)
      ≡ returned ((record { id = p.id; fields = q.fields ++ p.fields }, none), rest)
unmarshal_stream-to_bytes p q rest v =
    stream-of_parts p.id p.fields q rest v.numbered v.fits (omega (arith, v.total))
