-- ===== src/Edits.antt =====
-- imessage/imessage/direct/editparse.go: the text of an edited message. The HTML parser is an
-- argument; a node that it makes stands here with its first child's chain of siblings.
pub mod Plain
use imessage_for_me.Base.{
  ℕ, Bool, true, false, List, [], ◌∷◌, ◌++◌, Option, none, some, Bytes, codes, equal, if◌then◌else◌,
}

-- A chain of sibling nodes. Nodes of the other types are comments and doctypes.
pub data Nodes : Type 0 where
  no_nodes : Nodes
  text : Bytes → Nodes → Nodes
  element : Bytes → Nodes → Nodes → Nodes
  document : Nodes → Nodes → Nodes
  other : Nodes → Nodes

-- `getAttr`.
unfoldable pub get_attr : List (Bytes × Bytes) → Bytes → Bytes
get_attr [] name = []
get_attr ((key, val) ∷ attrs) name = if equal key name then val else get_attr attrs name

-- `nodeToTagAwareString` with what its builder holds. It returns no error. A document ends the loop,
-- and what was written before it is dropped.
unfoldable pub node_loop : Nodes → Bytes → Bytes
node_loop no_nodes builder = builder
node_loop (text content next) builder = node_loop next (builder ++ content)
node_loop (element name children next) builder =
    let break_line = node_loop next (builder ++ 10 ∷ []) in
    let inside = node_loop next (builder ++ node_loop children []) in
    if equal name (codes "br") then break_line else inside
node_loop (document children next) builder = node_loop children []
node_loop (other next) builder = node_loop next builder

unfoldable pub node_to_tag_aware_string : Nodes → Bytes
node_to_tag_aware_string nodes = node_loop nodes []

-- `ParseEditXML`.
unfoldable pub parse_edit_xml : (Bytes → Option Nodes) → Bytes → Option Bytes
parse_edit_xml parse_html xml = elim (parse_html xml) [
  | none ↦ none
  | some nodes ↦ some (node_to_tag_aware_string nodes)
]
