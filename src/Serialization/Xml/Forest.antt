-- ===== src/Serialization/Xml/Forest.antt =====
-- A tree of lists with a printed form of numbers in place of the XML text, with the laws that the
-- code relies on.
use mif.Prelude.{
  Bool-cases, ◌==◌, length, take, drop, ℕ, zero, suc, ◌≡◌, refl, inl, inr, true, Option, none, some,
  List, [], ◌∷◌, ◌++◌, map, bytes_eq, nat_eq,
}
use mif.Prelude.Map.{lookup}
use mif.Serialization.Json.{Outcome, done, fails, parse_error, ◌>>=◌}
use mif.Serialization.Xml.{Ptree, is_name}

mutual
  pub data Node : Type 0 where
    node : List ℕ → Forest → Node

  pub data Forest : Type 0 where
    no_nodes : Forest
    child : List ℕ → Node → Forest → Forest

abbrev children_of : Forest → List (List ℕ × Node)
children_of no_nodes = []
children_of (child name t f) = (name, t) ∷ children_of f

abbrev add_last : Forest → List ℕ → Node → Forest
add_last no_nodes name t = child name t no_nodes
add_last (child q s f) name t = child q s (add_last f name t)

-- The line breaks between the tags
abbrev data_of : List ℕ → Forest → List ℕ
data_of text no_nodes = text
data_of text (child name t f) = text ++ 10 ∷ []

abbrev mutual
  pub reread_node : Node → Node
  reread_node (node text f) = node (data_of text f) (reread_forest f)

  reread_forest : Forest → Forest
  reread_forest no_nodes = no_nodes
  reread_forest (child name t f) = child name (reread_node t) (reread_forest f)

abbrev data_in : Node → List ℕ
data_in (node text f) = text

abbrev children_in : Node → List (List ℕ × Node)
children_in (node text f) = children_of f

abbrev with_child : List ℕ → Node → Node → Node
with_child name t (node text f) = node text (add_last f name t)

abbrev child_in : List ℕ → Node → Option Node
child_in [] t = some t
child_in (b ∷ name) t = lookup (b ∷ name) (children_in t)

unfoldable mutual
  pub print_node : Node → List ℕ
  print_node (node text f) = length text ∷ (text ++ print_forest f)

  print_forest : Forest → List ℕ
  print_forest no_nodes = 0 ∷ []
  print_forest (child name t f) = suc (length name) ∷ (name ++ (print_node t ++ print_forest f))

unfoldable mutual
  pub parse_node : ℕ → List ℕ → Outcome (Node × List ℕ)
  parse_node zero text = fails parse_error
  parse_node (suc n) [] = fails parse_error
  parse_node (suc n) (size ∷ text) = parse_forest n (drop size text) >>= λ (f, rest).
      done (node (data_of (take size text) f) f, rest)

  parse_forest : ℕ → List ℕ → Outcome (Forest × List ℕ)
  parse_forest zero text = fails parse_error
  parse_forest (suc n) [] = fails parse_error
  parse_forest (suc n) (zero ∷ text) = done (no_nodes, text)
  parse_forest (suc n) (suc size ∷ text) = parse_node n (drop size text) >>= λ (t, rest).
      parse_forest n rest >>= λ (f, last). done (child (take size text) t f, last)

children_of-add_last :
    (name : List ℕ) (t : Node) (f : Forest)
    → children_of (add_last f name t) ≡ children_of f ++ (name, t) ∷ []
children_of-add_last name t no_nodes = refl
children_of-add_last name t (child q s f) = rw (children_of-add_last name t f) refl

lookup-reread_forest :
    (name : List ℕ) (f : Forest)
    → lookup name (children_of (reread_forest f))
      ≡ elim (lookup name (children_of f)) [ none ↦ none | some t ↦ some (reread_node t) ]
unfolding lookup
lookup-reread_forest name no_nodes = refl
lookup-reread_forest name (child q t f) = elim (Bool-cases (q == name)) [
  | inl same ↦ rw same refl
  | inr differs ↦ rw differs (lookup-reread_forest name f)
]

children_of-reread_forest :
    (f : Forest)
    → children_of (reread_forest f)
      ≡ map (λ (c : List ℕ × Node). (c.0, reread_node c.1)) (children_of f)
children_of-reread_forest no_nodes = refl
children_of-reread_forest (child name t f) = rw (children_of-reread_forest f) refl

pub children_in-with_child :
    (name : List ℕ) (t parent : Node)
    → is_name name ≡ true
    → children_in (with_child name t parent) ≡ children_in parent ++ (name, t) ∷ []
children_in-with_child name t (node text f) named = children_of-add_last name t f

pub child_in-lookup :
    (name : List ℕ) (t : Node) → is_name name ≡ true → child_in name t ≡ lookup name (children_in t)
child_in-lookup [] t named = cc
child_in-lookup (b ∷ name) t named = refl

pub lookup-reread_node :
    (name : List ℕ) (t : Node)
    → lookup name (children_in (reread_node t))
      ≡ elim (lookup name (children_in t)) [ none ↦ none | some t ↦ some (reread_node t) ]
lookup-reread_node name (node text f) = lookup-reread_forest name f

pub children_in-reread_node :
    (t : Node)
    → children_in (reread_node t)
      ≡ map (λ (c : List ℕ × Node). (c.0, reread_node c.1)) (children_in t)
children_in-reread_node (node text f) = children_of-reread_forest f

pub data_in-reread_node : (t : Node) → children_in t ≡ [] → data_in (reread_node t) ≡ data_in t
data_in-reread_node (node text no_nodes) h = refl
data_in-reread_node (node text (child name t f)) h = absurd (cc)

abbrev pub ptree : Ptree
ptree = record {
  Tree = Node;
  text_of = data_in;
  children = children_in;
  leaf = λ text. node text no_nodes;
  add = with_child;
  get_child = child_in;
  text_of-leaf = λ text. refl;
  children-leaf = λ text. refl;
  children-add = children_in-with_child;
  get_child-self = λ t. refl;
  get_child-lookup = child_in-lookup;
  reread = reread_node;
  lookup-reread = lookup-reread_node;
  children-reread = children_in-reread_node;
  text_of-reread = data_in-reread_node;
  write_xml = print_node;
  read_xml = λ text. parse_node (length text) text >>= λ (t, rest). done t;
}
