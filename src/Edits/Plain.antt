-- ===== src/Edits/Plain.antt =====
-- The text of an edit is that of the leaves of its document, in order.
use mathlib.Core.List.{append_assoc, append-nil}
use imessage_for_me.Base.{
  ◌≡◌, refl, sym, ◌∙◌, Bool, true, false, ◌&&◌, List, [], ◌∷◌, ◌++◌, Option, some, Bytes, codes,
  equal, arith, if◌then◌else◌, Bool-cases, inl, inr, and_left, and_right,
}
use imessage_for_me.Edits.{
  Nodes, no_nodes, text, element, document, other, node_loop, node_to_tag_aware_string,
  parse_edit_xml,
}

-- The leaves: texts, and a line break for each `br`.
abbrev pub leaves : Nodes → List Bytes
leaves no_nodes = []
leaves (text content next) = content ∷ leaves next
leaves (element name children next) =
    (if equal name (codes "br") then (10 ∷ []) ∷ [] else leaves children) ++ leaves next
leaves (document children next) = leaves children ++ leaves next
leaves (other next) = leaves next

-- A document stands nowhere but at the root of what the parser makes.
abbrev pub has_no_document : Nodes → Bool
has_no_document no_nodes = true
has_no_document (text content next) = has_no_document next
has_no_document (element name children next) = has_no_document children && has_no_document next
has_no_document (document children next) = false
has_no_document (other next) = has_no_document next

abbrev pub concat : List Bytes → Bytes
concat [] = []
concat (x ∷ xs) = x ++ concat xs

concat-append : (xs ys : List Bytes) → concat (xs ++ ys) ≡ concat xs ++ concat ys
concat-append [] ys = refl
concat-append (x ∷ xs) ys = rw (concat-append xs ys) (sym (append_assoc x (concat xs) (concat ys)))

node_loop_lem :
    (nodes : Nodes) (builder : Bytes)
    → has_no_document nodes ≡ true
    → node_loop nodes builder ≡ builder ++ concat (leaves nodes)
unfolding node_loop
node_loop_lem no_nodes builder h = sym (append-nil builder)
node_loop_lem (text content next) builder h =
    node_loop_lem next (builder ++ content) h ∙ append_assoc builder content (concat (leaves next))
node_loop_lem (element name children next) builder h = elim (Bool-cases (equal name (codes "br"))) [
  | inl e ↦ rw e (
      node_loop_lem next (builder ++ 10 ∷ []) (and_right _ _ h)
      ∙ append_assoc builder (10 ∷ []) (concat (leaves next)))
  | inr e ↦ rw e (
      rw (node_loop_lem children [] (and_left _ _ h), concat-append (leaves children) (leaves next))
        (node_loop_lem next (builder ++ concat (leaves children)) (and_right _ _ h)
          ∙ append_assoc builder (concat (leaves children)) (concat (leaves next))))
]
node_loop_lem (document children next) builder h = absurd (ground (arith, h))
node_loop_lem (other next) builder h = node_loop_lem next builder h

-- `ParseEditXML` of a text that the parser makes one document of gives the texts of the leaves one
-- behind the other, with a line break for each `br`; what stands in a `br` is left out.
pub parse_edit_xml_lem :
    (parse_html : Bytes → Option Nodes) (xml : Bytes) (nodes : Nodes)
    → parse_html xml ≡ some (document nodes no_nodes)
    → has_no_document nodes ≡ true
    → parse_edit_xml parse_html xml ≡ some (concat (leaves nodes))
unfolding parse_edit_xml node_to_tag_aware_string node_loop
parse_edit_xml_lem parse_html xml nodes p h =
    rw (p, parse_edit_xml) (rw (node_loop_lem nodes [] h) refl)
