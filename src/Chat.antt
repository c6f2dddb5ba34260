-- ===== src/Chat.antt =====
-- Chat identifiers and contacts of imessage/imessage/struct.go.
pub mod Guid
use imessage_for_me.Base.{
  ℕ, Bool, true, false, not, ◌&&◌, ◌||◌, List, [], ◌∷◌, ◌++◌, Option, none, some, Bytes, equal,
  ◌==◌, if◌then◌else◌, is_nil,
}
use imessage_for_me.Tapback.{split}

-- `Identifier`.
pub record Identifier : Type 0 where
  pub local_id : Bytes
  pub service : Bytes
  pub is_group : Bool

abbrev pub no_identifier : Identifier
no_identifier = record { local_id = []; service = []; is_group = false }

-- The parts of a GUID between its semicolons. The source reads three of them, and faults (`none`) where
-- there are fewer.
unfoldable pub identifier_of : Bytes × List Bytes → Option Identifier
identifier_of (service, kind ∷ local ∷ more) =
    some (record { service = service; is_group = equal kind (b'+' ∷ []); local_id = local })
identifier_of (service, _) = none

-- `ParseIdentifier`.
unfoldable pub parse_identifier : Bytes → Option Identifier
parse_identifier guid = if is_nil guid then some no_identifier else identifier_of (split b';' guid)

-- `Identifier.String`.
unfoldable pub to_string : Identifier → Bytes
to_string id =
    if is_nil id.local_id
    then []
    else id.service ++ b';' ∷ (if id.is_group then b'+' else b'-') ∷ b';' ∷ id.local_id

-- `Contact`, with the fields that its name is made of.
pub record Contact : Type 0 where
  pub first_name : Bytes
  pub last_name : Bytes
  pub nickname : Bytes
  pub phones : List Bytes
  pub emails : List Bytes

-- `HasName`; `none` is the nil pointer.
unfoldable pub has_name : Option Contact → Bool
has_name none = false
has_name (some c) = not (is_nil c.first_name) || not (is_nil c.last_name) || not (is_nil c.nickname)

abbrev first_or_empty : List Bytes → Bytes
first_or_empty [] = []
first_or_empty (x ∷ xs) = x

-- `Name`.
unfoldable pub name : Option Contact → Bytes
name none = []
name (some c) =
    if not (is_nil c.first_name)
    then (if not (is_nil c.last_name) then c.first_name ++ b' ' ∷ c.last_name else c.first_name)
    else if not (is_nil c.last_name)
    then c.last_name
    else if not (is_nil c.nickname)
    then c.nickname
    else if not (is_nil c.emails)
    then first_or_empty c.emails
    else if not (is_nil c.phones)
    then first_or_empty c.phones
    else []
