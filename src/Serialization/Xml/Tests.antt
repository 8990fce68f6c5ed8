-- ===== src/Serialization/Xml/Tests.antt =====
-- Decimal numbers, and the theorem of xml.h at an object.
use mif.Prelude.{
  ltb, if◌then◌else◌, ℕ, zero, suc, ◌+◌, ◌-◌, ◌*◌, ◌/◌, ◌%◌, ◌^◌, ◌≡◌, refl, sym, ◌∙◌, some, List,
  [], ◌∷◌, arith,
}
use mif.Serialization.Json.{done}
use mif.Serialization.Xml.{Numbers}
use mif.Serialization.Xml.Shapes.{
  Shape, Fields, no_fields, field, number, string, named_enum, smart_pointer, sequence, pair,
  reflected, El,
}
use mathlib.Core.Path.{subst}
use mif.Serialization.Json.Convert.{enum_to_string}
use mif.Serialization.Json.Shapes.{id_key, value_key}
use mif.Serialization.Xml.Write.{item_key, write_items, content, to_xml}
use mif.Serialization.Xml.Storable.{IsLossless, IsStorable}
use mif.Serialization.Xml.Text.{
  document, serialize, deserialize, ReadsPrinted, deserialize-serialize_xml,
}
use mif.Serialization.Xml.Forest.{
  Node, node, no_nodes, child, reread_node, print_node, parse_node, ptree,
}

-- Decimal digits, the last one first in `parts`
abbrev parts : ℕ → ℕ → List ℕ
parts zero x = []
parts (suc n) x = if ltb x 10 then (48 + x) ∷ [] else (48 + x % 10) ∷ parts n (x / 10)

abbrev reverse_onto : List ℕ → List ℕ → List ℕ
reverse_onto [] ys = ys
reverse_onto (x ∷ xs) ys = reverse_onto xs (x ∷ ys)

abbrev scan_onto : ℕ → List ℕ → ℕ
scan_onto x [] = x
scan_onto x (d ∷ text) = scan_onto (10 * x + (d - 48)) text

abbrev scan : List ℕ → ℕ → ℕ
scan [] old = old
scan (d ∷ text) old = scan_onto 0 (d ∷ text)

abbrev numbers : Numbers
numbers = record {
  Kind = Unit;
  to_string = λ k x. reverse_onto (parts 20 x) [];
  scan = λ k text old. scan text old;
}

-- namespace n; struct Base { std::uint64_t id; }; struct Note : Base { std::string text; Color color;
-- std::vector<std::pair<std::uint32_t, std::string>> marks; };
abbrev base_fields : Fields Unit
base_fields = field (105 ∷ 100 ∷ []) (number tt) no_fields

abbrev base_name : List ℕ
base_name = 66 ∷ 97 ∷ []

abbrev note_bases : Fields Unit
note_bases = field (110 ∷ 58 ∷ 58 ∷ base_name) (reflected base_name no_fields base_fields) no_fields

abbrev colors : List (List ℕ × ℕ)
colors = (114 ∷ [], 1) ∷ (103 ∷ [], 7) ∷ []

abbrev note_fields : Fields Unit
note_fields = field (116 ∷ []) string (
    field (99 ∷ []) (named_enum colors)
      (field (109 ∷ []) (smart_pointer (sequence (pair (number tt) string))) no_fields))

abbrev note_shape : Shape Unit
note_shape = reflected (78 ∷ []) note_bases note_fields

abbrev note : El note_shape
note = (((tt, (2 ^ 40, tt)), tt), (72 ∷ 105 ∷ [], (7, (some ((10, 65 ∷ []) ∷ (205, []) ∷ []), tt))))

note_shape-IsLossless : IsLossless note_shape
note_shape-IsLossless = ground arith

note-IsStorable : IsStorable numbers note_shape note
note-IsStorable = (
  ((tt, ((λ old. refl), tt)), tt),
  (tt, (ground arith, ((((λ old. refl), tt), (((λ old. refl), tt), tt)), tt))),
)

-- What is written of it
abbrev note_tree : Node
note_tree = node [] (
    child (78 ∷ [])
      (node [] (
        child (110 ∷ 58 ∷ 58 ∷ base_name)
          (node []
            (child (105 ∷ 100 ∷ []) (node (numbers.to_string tt (2 ^ 40)) no_nodes) no_nodes))
          (child (116 ∷ []) (node (72 ∷ 105 ∷ []) no_nodes) (
            child (99 ∷ []) (node (103 ∷ []) no_nodes) (
              child (109 ∷ [])
                (node [] (
                  child item_key
                    (node [] (
                      child id_key (node (49 ∷ 48 ∷ []) no_nodes)
                        (child value_key (node (65 ∷ []) no_nodes) no_nodes)))
                    (child item_key
                      (node [] (
                        child id_key (node (50 ∷ 48 ∷ 53 ∷ []) no_nodes)
                          (child value_key (node [] no_nodes) no_nodes)))
                      no_nodes)))
                no_nodes)))))
      no_nodes)

document-note : document ptree numbers note_shape note [] ≡ done note_tree
unfolding document to_xml content write_items enum_to_string
document-note = refl

parse_node-print_node-note : ptree.read_xml (print_node note_tree) ≡ done (reread_node note_tree)
unfolding print_node parse_node
parse_node-print_node-note = refl

done_inj : (t u : Node) → done t ≡ done u → t ≡ u
done_inj t u e = cc

note-ReadsPrinted : ReadsPrinted ptree numbers (document ptree numbers note_shape note [])
note-ReadsPrinted doc e =
    subst (λ t. ptree.read_xml (ptree.write_xml t) ≡ done (ptree.reread t))
      (done_inj note_tree doc (sym document-note ∙ e)) parse_node-print_node-note

deserialize-serialize_xml_example :
    (text : List ℕ) × (serialize ptree numbers note_shape note [] ≡ done text)
    × (deserialize ptree numbers note_shape text [] ≡ done note)
deserialize-serialize_xml_example =
    deserialize-serialize_xml ptree numbers note_shape note [] note_shape-IsLossless refl refl
      note-IsStorable note-ReadsPrinted
