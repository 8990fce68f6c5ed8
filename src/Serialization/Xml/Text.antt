-- ===== src/Serialization/Xml/Text.antt =====
-- `Serialize` and `Deserialize` of xml.h: objects as XML documents, and back.
use mif.Prelude.{
  Bool-cases, ◌==◌, bytes_beq_iff, ℕ, ◌≡◌, sym, ◌∙◌, ◌≢◌, inl, inr, true, false, none, some, List,
  [], ◌∷◌, arith, bytes_eq, nat_eq,
}
use mif.Serialization.Json.{Outcome, done, ◌>>=◌}
use mif.Serialization.Xml.{Ptree, Numbers, is_name}
use mif.Serialization.Xml.Shapes.{
  Shape, number, string, named_enum, smart_pointer, sequence, pair, reflected, El, default,
}
use mif.Serialization.Xml.Write.{name_for, to_xml}
use mif.Serialization.Xml.Read.{from_xml}
use mif.Serialization.Xml.Storable.{is_pair, IsLossless, IsStorable, Picks}
use mif.Serialization.Xml.Nodes.{find-add, find-add_other, find-leaf, reread_present, reread_absent}
use mif.Serialization.Xml.RoundTrip.{kept}

module _ (p : Ptree) (n : Numbers) where
  unfoldable pub document : (s : Shape n.Kind) → El s → List ℕ → Outcome p.Tree
  document s x root = to_xml p n s x root (p.leaf [])

  unfoldable pub serialize : (s : Shape n.Kind) → El s → List ℕ → Outcome (List ℕ)
  unfolding document
  serialize s x root = document s x root >>= λ doc. done (p.write_xml doc)

  unfoldable pub deserialize : (s : Shape n.Kind) → List ℕ → List ℕ → Outcome (El s)
  deserialize s text root = p.read_xml text >>= λ doc. from_xml p n s doc (default s) root

  -- A document of one child is read under the name that it was written under.
  Picks-name_for :
      (s : Shape n.Kind) (root : List ℕ) (doc t : p.Tree)
      → IsLossless s
      → is_pair s ≡ false
      → p.get_child (name_for p n s root) doc ≡ some t
      → ((q : List ℕ) → is_name q ≡ true → name_for p n s root ≢ q → p.get_child q doc ≡ none)
      → Picks p s root doc t
  Picks-name_for (number k) root doc t l h found others = found
  Picks-name_for string root doc t l h found others = found
  Picks-name_for (named_enum items) root doc t l h found others = found
  Picks-name_for (smart_pointer s) root doc t l h found others =
      Picks-name_for s root doc t l h found others
  Picks-name_for (sequence s) root doc t l h found others = found
  Picks-name_for (pair s r) root doc t l h found others = cc
  Picks-name_for (reflected own bs fs) [] doc t l h found others = inl found
  Picks-name_for (reflected own bs fs) (b ∷ root) doc t l h found others =
      elim (Bool-cases ((b ∷ root) == own)) [
        | inl same ↦ inl (rw (sym ((bytes_beq_iff (b ∷ root) own).0 same)) found)
        | inr differs ↦ inr (others own l.5.0 (ground (arith, bytes_beq_iff (b ∷ root) own)), found)
      ]

  -- The library reads a printed document back.
  abbrev pub ReadsPrinted : Outcome p.Tree → Type 0
  ReadsPrinted printed =
      (doc : p.Tree) → printed ≡ done doc → p.read_xml (p.write_xml doc) ≡ done (p.reread doc)

  -- An object of a type without loss that is no pair, its numbers such as the streams read back, its
  -- enumeration values among those reflected and none of its pointers null, is written under a name
  -- without a dot, or under that of its type where none is given, as an XML document, and this
  -- document is read as the same object under the name given, wherever the XML library reads the
  -- printed tree back.
  pub deserialize-serialize_xml :
      (s : Shape n.Kind) (x : El s) (root : List ℕ)
      → IsLossless s
      → is_pair s ≡ false
      → is_name (name_for p n s root) ≡ true
      → IsStorable n s x
      → ReadsPrinted (document s x root)
      → (text : List ℕ) × (serialize s x root ≡ done text) × (deserialize s text root ≡ done x)
  unfolding document serialize deserialize to_xml
  deserialize-serialize_xml s x root lossless single named storable printed =
      let back = kept p n s x lossless storable in
      let key = name_for p n s root in
      let doc = p.add key back.item (p.leaf []) in
      let seen = p.reread doc in
      let found : p.get_child key seen ≡ some (p.reread back.item) =
        p.get_child-lookup key seen named
        ∙ reread_present p key doc back.item
            (find-add p key back.item (p.leaf []) named (find-leaf p key [])) in
      let others : (q : List ℕ) → is_name q ≡ true → key ≢ q → p.get_child q seen ≡ none =
        λ q named_q differs.
          p.get_child-lookup q seen named_q
          ∙ reread_absent p q doc
              (find-add_other p key q back.item (p.leaf []) named differs ∙ find-leaf p q []) in
      (
        p.write_xml doc,
        rw back.wrote,
        rw (printed doc (rw back.wrote)) (
            back.red seen (default s) root
              (Picks-name_for s root seen (p.reread back.item) lossless single found others)),
      )
