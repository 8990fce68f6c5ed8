-- ===== src/Serialization/Xml/Read.antt =====
-- `Deserialize` of xml.h, one clause for each kind of type.
use mif.Prelude.{ℕ, Option, none, some, List, [], ◌∷◌}
use mif.Serialization.Json.{Outcome, fails, done, invalid_value, missing_key, ◌>>=◌}
use mif.Serialization.Json.Convert.{string_to_enum}
use mif.Serialization.Json.Shapes.{id_key, value_key}
use mif.Serialization.Xml.{Ptree, Numbers}
use mif.Serialization.Xml.Shapes.{
  Shape, Fields, no_fields, field, number, string, named_enum, smart_pointer, sequence, pair,
  reflected, El, Record, default,
}

module _ (p : Ptree) (n : Numbers) where
  -- The checks of `get_child_optional`, and of `get_child`
  abbrev pub or_failure : Option p.Tree → Outcome p.Tree
  or_failure none = fails invalid_value
  or_failure (some t) = done t

  abbrev pub or_bad_path : Option p.Tree → Outcome p.Tree
  or_bad_path none = fails missing_key
  or_bad_path (some t) = done t

  unfoldable pub read_items :
      {A : Type 0} → (p.Tree → Outcome A) → List (List ℕ × p.Tree) → Outcome (List A)
  read_items read [] = done []
  read_items read ((name, t) ∷ children) =
      read t >>= λ x. read_items read children >>= λ xs. done (x ∷ xs)

  -- The node of a reflected object: the child with the name of its type, and else the named one
  abbrev pub node_of : Option p.Tree → Option p.Tree → Outcome p.Tree
  node_of (some item) named = done item
  node_of none named = or_bad_path named

  unfoldable mutual
    pub from_xml : (s : Shape n.Kind) → p.Tree → El s → List ℕ → Outcome (El s)
    from_xml (number k) node old name =
        or_failure (p.get_child name node) >>= λ t. done (n.scan k (p.text_of t) old)
    from_xml string node old name = or_failure (p.get_child name node) >>= λ t. done (p.text_of t)
    from_xml (named_enum items) node old name =
        or_failure (p.get_child name node) >>= λ t. string_to_enum items (p.text_of t)
    from_xml (smart_pointer s) node old name =
        from_xml s node (default s) name >>= λ x. done (some x)
    from_xml (sequence s) node old name = or_failure (p.get_child name node) >>= λ t.
        read_items (λ child. from_xml s child (default s) []) (p.children t)
    from_xml (pair s t) node (x, y) name = from_xml s node x id_key >>= λ first.
        from_xml t node y value_key >>= λ second. done (first, second)
    from_xml (reflected own bases fields) node (inherited, members) name =
        node_of (p.get_child own node) (p.get_child name node) >>= λ item.
        read_record bases item inherited >>= λ above.
        read_record fields item members >>= λ below. done (above, below)

    pub read_record : (fs : Fields n.Kind) → p.Tree → Record fs → Outcome (Record fs)
    read_record no_fields t old = done tt
    read_record (field name s fs) t (x, r) =
        from_xml s t x name >>= λ first. read_record fs t r >>= λ others. done (first, others)
