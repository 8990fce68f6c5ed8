-- ===== src/Serialization/Xml/Records.antt =====
-- The fields of a written object, and the nodes that readers find them in.
use mif.Prelude.{
  ℕ, ◌≡◌, refl, sym, ◌∙◌, inl, inr, true, false, none, some, List, [], bytes_eq, nat_eq,
}
use mif.Serialization.Json.{done}
use mif.Serialization.Xml.{Ptree, Numbers, is_name}
use mif.Serialization.Xml.Shapes.{
  Shape, Fields, no_fields, field, number, string, named_enum, smart_pointer, sequence, pair,
  reflected, El, Record,
}
use mif.Serialization.Xml.Write.{content, write_record}
use mif.Serialization.Xml.Read.{from_xml, read_record}
use mif.Serialization.Xml.Storable.{is_pair, IsAbsent, AreDisjoint, IsHidden, AreHidden, Picks}
use mif.Serialization.Xml.Nodes.{
  find, find-add_other, find-add, find-leaf, reread_absent, reread_present,
}
use mif.Serialization.Xml.Items.{Kept}

module _ (p : Ptree) (n : Numbers) where
  -- None of the fields is in the node yet.
  abbrev pub IsFresh : Fields n.Kind → p.Tree → Type 0
  IsFresh no_fields node = Unit
  IsFresh (field name s fs) node = (find p name node ≡ none) × IsFresh fs node

  -- The children that the fields name are the same in both.
  abbrev Agrees : Fields n.Kind → p.Tree → p.Tree → Type 0
  Agrees no_fields t w = Unit
  Agrees (field name s fs) t w = (find p name t ≡ find p name w) × Agrees fs t w

  -- No child has the name of the type.
  abbrev IsUnfound : Shape n.Kind → p.Tree → Type 0
  IsUnfound (reflected own bs fs) t = p.get_child own t ≡ none
  IsUnfound (smart_pointer s) t = IsUnfound s t
  IsUnfound _ t = Unit

  abbrev AreUnfound : Fields n.Kind → p.Tree → Type 0
  AreUnfound no_fields t = Unit
  AreUnfound (field name s fs) t = IsUnfound s t × AreUnfound fs t

  pub record RecordKept (fs : Fields n.Kind) (r : Record fs) (root : p.Tree) : Type 0 where
    pub whole : p.Tree
    pub wrote : write_record p n fs r root ≡ done whole
    pub kept : (q : List ℕ) → IsAbsent q fs → find p q whole ≡ find p q root
    pub fresh_for : (gs : Fields n.Kind) → AreDisjoint fs gs → IsFresh gs root → IsFresh gs whole
    pub red :
        (final : p.Tree) (old : Record fs)
        → Agrees fs final whole
        → AreUnfound fs (p.reread final)
        → read_record p n fs (p.reread final) old ≡ done r

  pub IsFresh-leaf : (fs : Fields n.Kind) → IsFresh fs (p.leaf [])
  IsFresh-leaf no_fields = tt
  IsFresh-leaf (field name s fs) = (find-leaf p name [], IsFresh-leaf fs)

  pub IsFresh-add :
      (fs : Fields n.Kind) (name : List ℕ) (child node : p.Tree)
      → is_name name ≡ true
      → IsAbsent name fs
      → IsFresh fs node
      → IsFresh fs (p.add name child node)
  IsFresh-add no_fields name child node named h fresh = tt
  IsFresh-add (field q s fs) name child node named h fresh = (
    find-add_other p name q child node named (λ e. h.0 (sym e)) ∙ fresh.0,
    IsFresh-add fs name child node named h.1 fresh.1,
  )

  Agrees-AreDisjoint :
      (gs fs : Fields n.Kind) (t w : p.Tree)
      → AreDisjoint gs fs
      → ((q : List ℕ) → IsAbsent q fs → find p q t ≡ find p q w)
      → Agrees gs t w
  Agrees-AreDisjoint no_fields fs t w h kept = tt
  Agrees-AreDisjoint (field name s gs) fs t w (absent, h) kept =
      (kept name absent, Agrees-AreDisjoint gs fs t w h kept)

  Agrees-self : (fs : Fields n.Kind) (t : p.Tree) → Agrees fs t t
  Agrees-self no_fields t = tt
  Agrees-self (field name s fs) t = (refl, Agrees-self fs t)

  -- A type whose name is no base and no field is not found in the node of the object.
  module _ (bs fs : Fields n.Kind) (t : p.Tree)
      (absent : (q : List ℕ) → IsAbsent q bs → IsAbsent q fs → find p q t ≡ none) where
    IsHidden-IsUnfound : (s : Shape n.Kind) → IsHidden bs fs s → IsUnfound s (p.reread t)
    IsHidden-IsUnfound (reflected own cs gs) h =
        p.get_child-lookup own (p.reread t) h.0 ∙ reread_absent p own t (absent own h.1 h.2)
    IsHidden-IsUnfound (smart_pointer s) h = IsHidden-IsUnfound s h
    IsHidden-IsUnfound (number k) h = tt
    IsHidden-IsUnfound string h = tt
    IsHidden-IsUnfound (named_enum items) h = tt
    IsHidden-IsUnfound (sequence s) h = tt
    IsHidden-IsUnfound (pair s r) h = tt

    AreHidden-AreUnfound : (gs : Fields n.Kind) → AreHidden bs fs gs → AreUnfound gs (p.reread t)
    AreHidden-AreUnfound no_fields h = tt
    AreHidden-AreUnfound (field name s gs) h =
        (IsHidden-IsUnfound s h.0, AreHidden-AreUnfound gs h.1)

  Picks-is_pair :
      (s : Shape n.Kind) (name : List ℕ) (node t : p.Tree)
      → is_pair s ≡ false
      → IsUnfound s node
      → p.get_child name node ≡ some t
      → Picks p s name node t
  Picks-is_pair (number k) name node t h u e = e
  Picks-is_pair string name node t h u e = e
  Picks-is_pair (named_enum items) name node t h u e = e
  Picks-is_pair (smart_pointer s) name node t h u e = Picks-is_pair s name node t h u e
  Picks-is_pair (sequence s) name node t h u e = e
  Picks-is_pair (pair s r) name node t h u e = cc
  Picks-is_pair (reflected own bs fs) name node t h u e = inr (u, e)

  -- A field more, in front of fields that come back
  pub field-RecordKept :
      (name : List ℕ) (s : Shape n.Kind) (fs : Fields n.Kind) (x : El s) (r : Record fs)
      (root : p.Tree)
      → is_name name ≡ true
      → is_pair s ≡ false
      → IsAbsent name fs
      → find p name root ≡ none
      → (back : Kept p n s x) → RecordKept fs r (p.add name back.item root)
      → RecordKept (field name s fs) (x, r) root
  unfolding content from_xml
  field-RecordKept name s fs x r root named single absent fresh back rest =
      let found : find p name rest.whole ≡ some back.item =
        rest.kept name absent ∙ find-add p name back.item root named fresh in
      record {
        whole = rest.whole;
        wrote = rw back.wrote rest.wrote;
        kept =
            λ q other. rest.kept q other.1 ∙ find-add_other p name q back.item root named other.0;
        fresh_for = λ gs apart new.
            rest.fresh_for gs apart.1 (IsFresh-add gs name back.item root named apart.0 new);
        red = λ final old same unfound.
            let seen =
              p.get_child-lookup name (p.reread final) named
              ∙ reread_present p name final back.item (same.0 ∙ found) in
            rw
              (
                back.red (p.reread final) old.0 name (
                    Picks-is_pair s name (p.reread final) (p.reread back.item) single unfound.0
                      seen),
                rest.red final old.1 same.1 unfound.1,
              )
              refl;
      }

  read_reflected :
      (own name : List ℕ) (bs fs : Fields n.Kind) (node t : p.Tree)
      (old now : Record bs × Record fs)
      → Picks p (reflected own bs fs) name node t
      → read_record p n bs t old.0 ≡ done now.0
      → read_record p n fs t old.1 ≡ done now.1
      → from_xml p n (reflected own bs fs) node old name ≡ done now
  unfolding from_xml
  read_reflected own name bs fs node t (above, below) now (inl e) a b = rw (e, a, b) refl
  read_reflected own name bs fs node t (above, below) now (inr (e, d)) a b = rw (e, d, a, b) refl

  -- The bases and the fields of an object, one after the other
  pub reflected-Kept :
      (own : List ℕ) (bs fs : Fields n.Kind) (inherited : Record bs) (members : Record fs)
      → AreDisjoint bs fs
      → IsHidden bs fs (reflected own bs fs)
      → AreHidden bs fs bs
      → AreHidden bs fs fs
      → (above : RecordKept bs inherited (p.leaf [])) → RecordKept fs members above.whole
      → Kept p n (reflected own bs fs) (inherited, members)
  unfolding content from_xml
  reflected-Kept own bs fs inherited members apart hidden hb hf above below =
      let final = below.whole in
      let absent : (q : List ℕ) → IsAbsent q bs → IsAbsent q fs → find p q final ≡ none =
        λ q a b. below.kept q b ∙ above.kept q a ∙ find-leaf p q [] in
      let shared = Agrees-AreDisjoint bs fs final above.whole apart below.kept in
      record {
        item = final;
        wrote = rw above.wrote below.wrote;
        red = λ node old name picks.
            read_reflected own name bs fs node (p.reread final) old (inherited, members) picks
              (above.red final old.0 shared (AreHidden-AreUnfound bs fs final absent bs hb))
              (below.red final old.1 (Agrees-self fs final)
                (AreHidden-AreUnfound bs fs final absent fs hf));
        alone = inr (
          IsHidden-IsUnfound bs fs final absent (reflected own bs fs) hidden,
          p.get_child-self (p.reread final),
        );
      }
