-- ===== src/Serialization/Xml/Nodes.antt =====
-- Nodes with a child more, and nodes that were printed and read.
use mif.Prelude.{
  bytes_beq_iff, ℕ, ◌≡◌, refl, ◌∙◌, ◌≢◌, true, Option, none, some, List, [], ◌∷◌, ◌++◌, arith,
  bytes_eq, nat_eq,
}
use mif.Prelude.Map.{lookup}
use mif.Serialization.Xml.{Ptree, is_name}

lookup-append :
    {V : Type 0} (q name : List ℕ) (value : V) (m : List (List ℕ × V))
    → (name ≢ q → lookup q (m ++ (name, value) ∷ []) ≡ lookup q m)
      × (lookup q m ≡ none → name ≡ q → lookup q (m ++ (name, value) ∷ []) ≡ some value)
unfolding lookup
lookup-append q name value [] =
    (λ h. ground (arith, bytes_beq_iff name q), λ h e. ground (arith, bytes_beq_iff name q))
lookup-append q name value ((k, v) ∷ m) =
    let rest = lookup-append q name value m in
    (λ h. ground (arith, rest.0 h), λ h e. ground (arith, rest.1))

module _ (p : Ptree) where
  abbrev pub find : List ℕ → p.Tree → Option p.Tree
  find name t = lookup name (p.children t)

  pub find-add_other :
      (name q : List ℕ) (child t : p.Tree)
      → is_name name ≡ true
      → name ≢ q
      → find q (p.add name child t) ≡ find q t
  find-add_other name q child t named h =
      rw (p.children-add name child t named) ((lookup-append q name child (p.children t)).0 h)

  pub find-add :
      (name : List ℕ) (child t : p.Tree)
      → is_name name ≡ true
      → find name t ≡ none
      → find name (p.add name child t) ≡ some child
  find-add name child t named h =
      rw (p.children-add name child t named)
        ((lookup-append name name child (p.children t)).1 h refl)

  pub find-leaf : (name text : List ℕ) → find name (p.leaf text) ≡ none
  unfolding lookup
  find-leaf name text = rw (p.children-leaf text) refl

  pub reread_absent :
      (name : List ℕ) (t : p.Tree) → find name t ≡ none → find name (p.reread t) ≡ none
  reread_absent name t h = p.lookup-reread name t ∙ rw h refl

  pub reread_present :
      (name : List ℕ) (t child : p.Tree)
      → find name t ≡ some child
      → find name (p.reread t) ≡ some (p.reread child)
  reread_present name t child h = p.lookup-reread name t ∙ rw h refl

  pub text_of-leaf_reread : (text : List ℕ) → p.text_of (p.reread (p.leaf text)) ≡ text
  text_of-leaf_reread text =
      p.text_of-reread (p.leaf text) (p.children-leaf text) ∙ p.text_of-leaf text
