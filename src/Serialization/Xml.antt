-- ===== src/Serialization/Xml.antt =====
-- include/mif/serialization/xml.h: objects as XML trees, and back. The tree of boost::property_tree
-- and the conversion of numbers by streams are parameters.
use mif.Prelude.{
  ◌==◌, ℕ, ◌≡◌, Bool, true, not, ◌&&◌, Option, none, some, List, [], ◌∷◌, ◌++◌, map, bytes_eq,
  nat_eq,
}
use mif.Serialization.Json.{is_empty, Outcome}
use mif.Prelude.Map.{lookup}
pub mod Shapes
pub mod Write
pub mod Read
pub mod Storable
pub mod Nodes
pub mod Items
pub mod Records
pub mod RoundTrip
pub mod Text
mod Forest
mod Tests

-- Names that are not empty and have no dot, which separates the steps of a path
abbrev pub is_plain_name : List ℕ → Bool
is_plain_name [] = true
is_plain_name (b ∷ name) = not (b == 46) && is_plain_name name

abbrev pub is_name : List ℕ → Bool
is_name name = not (is_empty name) && is_plain_name name

-- The numbers, `bool` among them, with `std::to_string` and `operator >>`; a failed extraction may
-- leave the old value.
pub record Numbers : Type 1 where
  pub Kind : Type 0
  pub to_string : Kind → ℕ → List ℕ
  pub scan : Kind → List ℕ → ℕ → ℕ

-- `boost::property_tree::ptree`, with what the code relies on
pub record Ptree : Type 1 where
  pub Tree : Type 0
  pub text_of : Tree → List ℕ
  pub children : Tree → List (List ℕ × Tree)
  -- a tree without children, one with a child more, and the lookup of a path
  pub leaf : List ℕ → Tree
  pub add : List ℕ → Tree → Tree → Tree
  pub get_child : List ℕ → Tree → Option Tree
  pub text_of-leaf : (text : List ℕ) → text_of (leaf text) ≡ text
  pub children-leaf : (text : List ℕ) → children (leaf text) ≡ []
  pub children-add :
      (name : List ℕ) (child parent : Tree)
      → is_name name ≡ true
      → children (add name child parent) ≡ children parent ++ (name, child) ∷ []
  -- The empty path is the tree itself, a name is its first child of this name.
  pub get_child-self : (t : Tree) → get_child [] t ≡ some t
  pub get_child-lookup :
      (name : List ℕ) (t : Tree) → is_name name ≡ true → get_child name t ≡ lookup name (children t)
  -- what `read_xml` makes of what `write_xml` printed: the space between the tags goes to the data of
  -- trees that have children
  pub reread : Tree → Tree
  pub lookup-reread :
      (name : List ℕ) (t : Tree)
      → lookup name (children (reread t))
        ≡ elim (lookup name (children t)) [ none ↦ none | some child ↦ some (reread child) ]
  pub children-reread :
      (t : Tree) → children (reread t) ≡ map (λ (c : List ℕ × Tree). (c.0, reread c.1)) (children t)
  pub text_of-reread : (t : Tree) → children t ≡ [] → text_of (reread t) ≡ text_of t
  pub write_xml : Tree → List ℕ
  pub read_xml : List ℕ → Outcome Tree
