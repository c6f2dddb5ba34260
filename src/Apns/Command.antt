-- ===== src/Apns/Command.antt =====
-- imessage/imessage/direct/apns/commands.go and the tables at the top of marshal.go: the command
-- structs, by the tagged fields that reflection finds in them.
use imessage_for_me.Base.{ℕ, Bool, List, [], ◌∷◌, Option, none, some, Bytes, ◌==◌, if◌then◌else◌}

pub data CommandType : Type 0 where
  connect connect_ack filter_topics filter_topics_ack : CommandType
  incoming_send_message outgoing_send_message send_message_ack : CommandType
  set_state keep_alive : CommandType

-- A field's value with its Go type; `none` is a nil slice. `flags` is a `ConnectionFlag`, and
-- `slices` a `[][]byte`. No command has a string or a bool, which the code handles too.
pub data FieldValue : Type 0 where
  text : Bytes → FieldValue
  slice : Option Bytes → FieldValue
  boolean : Bool → FieldValue
  uint8_value uint16_value uint32_value uint64_value : ℕ → FieldValue
  flags : ℕ → FieldValue
  slices : Option (List Bytes) → FieldValue

-- A struct: its tagged fields in the order of their declaration, each with the number in its tag.
abbrev pub Fields : Type 0
Fields = List (ℕ × FieldValue)

pub record Struct : Type 0 where
  pub type : CommandType
  pub fields : Fields

abbrev nil_slice : FieldValue
nil_slice = slice none

-- `reflect.New` of each type, with the numbers of the struct tags.
abbrev pub zero_fields : CommandType → Fields
zero_fields connect =
    (1, nil_slice)
    ∷ (2, nil_slice)
    ∷ (5, flags 0)
    ∷ (12, nil_slice)
    ∷ (13, nil_slice)
    ∷ (14, nil_slice)
    ∷ []
zero_fields connect_ack =
    (1, nil_slice)
    ∷ (3, nil_slice)
    ∷ (4, uint16_value 0)
    ∷ (5, nil_slice)
    ∷ (6, nil_slice)
    ∷ (8, uint16_value 0)
    ∷ (10, uint64_value 0)
    ∷ []
zero_fields incoming_send_message =
    (4, nil_slice)
    ∷ (1, nil_slice)
    ∷ (2, nil_slice)
    ∷ (3, nil_slice)
    ∷ (5, nil_slice)
    ∷ (6, nil_slice)
    ∷ (7, nil_slice)
    ∷ []
zero_fields outgoing_send_message =
    (4, nil_slice) ∷ (2, nil_slice) ∷ (1, nil_slice) ∷ (3, nil_slice) ∷ []
zero_fields set_state = (1, uint8_value 0) ∷ (2, uint32_value 0) ∷ []
zero_fields filter_topics = (1, nil_slice) ∷ (2, slices none) ∷ []
zero_fields filter_topics_ack = (1, nil_slice) ∷ []
zero_fields send_message_ack =
    (1, nil_slice) ∷ (4, nil_slice) ∷ (8, nil_slice) ∷ (6, nil_slice) ∷ []
zero_fields keep_alive = []

-- `commandIDToStruct`.
abbrev pub command_id_to_struct : ℕ → Option CommandType
command_id_to_struct n =
    if n == 7
    then some connect
    else if n == 8
    then some connect_ack
    else if n == 9
    then some filter_topics
    else if n == 14
    then some filter_topics_ack
    else if n == 10
    then some incoming_send_message
    else if n == 11
    then some send_message_ack
    else if n == 20
    then some set_state
    else if n == 12
    then some keep_alive
    else if n == 13
    then some keep_alive
    else none

-- `structToCommandID`. The literal lists the keepalive struct twice, and the later entry, the
-- number of the acknowledgement, is the one that the map keeps.
abbrev pub struct_to_command_id : CommandType → Option ℕ
struct_to_command_id connect = some 7
struct_to_command_id connect_ack = some 8
struct_to_command_id filter_topics = some 9
struct_to_command_id filter_topics_ack = some 14
struct_to_command_id outgoing_send_message = some 10
struct_to_command_id send_message_ack = some 11
struct_to_command_id set_state = some 20
struct_to_command_id keep_alive = some 13
struct_to_command_id incoming_send_message = none
