-- ===== src/Serialization/Xml/Write.antt =====
-- `Serialize` of xml.h: each overload adds one child to the node that it is given; `content` is this
-- child, `to_xml` the node with it.
use mif.Prelude.{if◌then◌else◌, ℕ, none, some, List, [], ◌∷◌}
use mif.Serialization.Json.{Outcome, done, is_empty, ◌>>=◌}
use mif.Serialization.Json.Convert.{enum_to_string}
use mif.Serialization.Json.Shapes.{id_key, value_key}
use mif.Serialization.Xml.{Ptree, Numbers}
use mif.Serialization.Xml.Shapes.{
  Shape, Fields, no_fields, field, number, string, named_enum, smart_pointer, sequence, pair,
  reflected, El, Record,
}

-- `Tag::Item`
abbrev pub item_key : List ℕ
item_key = 105 ∷ 116 ∷ 101 ∷ 109 ∷ []

module _ (p : Ptree) (n : Numbers) where
  -- The loop over a container
  unfoldable pub write_items :
      {A : Type 0} → (A → Outcome p.Tree) → List A → p.Tree → Outcome p.Tree
  write_items write [] node = done node
  write_items write (x ∷ xs) node =
      write x >>= λ item. write_items write xs (p.add item_key item node)

  unfoldable mutual
    pub content : (s : Shape n.Kind) → El s → Outcome p.Tree
    content (number k) x = done (p.leaf (n.to_string k x))
    content string text = done (p.leaf text)
    content (named_enum items) v = enum_to_string items v >>= λ name. done (p.leaf name)
    content (smart_pointer s) none = done (p.leaf [])
    content (smart_pointer s) (some x) = content s x
    content (sequence s) xs = write_items (content s) xs (p.leaf [])
    content (pair s t) (x, y) = content s x >>= λ i.
        content t y >>= λ j. done (p.add value_key j (p.add id_key i (p.leaf [])))
    content (reflected name bases fields) (inherited, own) =
        write_record bases inherited (p.leaf []) >>= λ item. write_record fields own item

    pub write_record : (fs : Fields n.Kind) → Record fs → p.Tree → Outcome p.Tree
    write_record no_fields r node = done node
    write_record (field name s fs) (x, r) node =
        content s x >>= λ item. write_record fs r (p.add name item node)

  -- A reflected type without a name is put under its own.
  abbrev pub name_for : Shape n.Kind → List ℕ → List ℕ
  name_for (reflected own bs fs) name = if is_empty name then own else name
  name_for (smart_pointer s) name = name_for s name
  name_for s name = name

  unfoldable pub to_xml : (s : Shape n.Kind) → El s → List ℕ → p.Tree → Outcome p.Tree
  unfolding content
  to_xml s x name node = content s x >>= λ item. done (p.add (name_for s name) item node)
