-- ===== src/Serialization/Xml/Items.antt =====
-- Objects that are written and come back: the items of containers, and pairs.
use mif.Prelude.{
  All, ℕ, ◌≡◌, refl, sym, ◌∙◌, true, some, List, [], ◌∷◌, ◌++◌, map, append-nil, append_assoc,
  arith, bytes_eq, nat_eq,
}
use mif.Serialization.Json.{done}
use mif.Serialization.Json.Shapes.{id_key, value_key}
use mif.Serialization.Xml.{Ptree, Numbers}
use mif.Serialization.Xml.Shapes.{
  Shape, number, string, named_enum, smart_pointer, sequence, pair, reflected, El, default,
}
use mif.Serialization.Xml.Write.{item_key, write_items, content}
use mif.Serialization.Xml.Read.{read_items, from_xml}
use mif.Serialization.Xml.Storable.{is_plain, Picks}
use mif.Serialization.Xml.Nodes.{find, find-add_other, find-add, find-leaf, reread_present}

module _ (p : Ptree) (n : Numbers) where
  -- Written, and read from every node in which the reader finds the child
  pub record Kept (s : Shape n.Kind) (x : El s) : Type 0 where
    pub item : p.Tree
    pub wrote : content p n s x ≡ done item
    pub red :
        (node : p.Tree) (old : El s) (name : List ℕ)
        → Picks p s name node (p.reread item)
        → from_xml p n s node old name ≡ done x
    pub alone : Picks p s [] (p.reread item) (p.reread item)

  -- Items that were written after the children of a node, and are read in their order
  record ItemsKept (s : Shape n.Kind) (xs : List (El s)) (node : p.Tree) : Type 0 where
    pub whole : p.Tree
    pub items : List (List ℕ × p.Tree)
    pub wrote : write_items p n (content p n s) xs node ≡ done whole
    pub children_of : p.children whole ≡ p.children node ++ items
    pub red :
        read_items p n
          (λ child. from_xml p n s child (default s) [])
          (map (λ (c : List ℕ × p.Tree). (c.0, p.reread c.1)) items)
        ≡ done xs

  items_kept :
      (s : Shape n.Kind) (xs : List (El s)) (node : p.Tree) → All (Kept s) xs → ItemsKept s xs node
  unfolding write_items read_items
  items_kept s [] node h = record {
    whole = node;
    items = [];
    wrote = refl;
    children_of = sym (append-nil (p.children node));
    red = refl;
  }
  items_kept s (x ∷ xs) node (back, h) =
      let rest = items_kept s xs (p.add item_key back.item node) h in
      record {
        whole = rest.whole;
        items = (item_key, back.item) ∷ rest.items;
        wrote = rw back.wrote rest.wrote;
        children_of =
            rest.children_of
            ∙ rw (p.children-add item_key back.item node refl)
                (append_assoc (p.children node) ((item_key, back.item) ∷ []) rest.items);
        red = rw (back.red (p.reread back.item) (default s) [] back.alone, rest.red) refl;
      }

  pub sequence-Kept : (s : Shape n.Kind) (xs : List (El s)) → All (Kept s) xs → Kept (sequence s) xs
  unfolding content from_xml
  sequence-Kept s xs h =
      let all = items_kept s xs (p.leaf []) h in
      let listed : p.children all.whole ≡ all.items =
        all.children_of ∙ rw (p.children-leaf []) refl in
      record {
        item = all.whole;
        wrote = all.wrote;
        red = λ node old name picks. rw (picks, p.children-reread all.whole, listed) all.red;
        alone = p.get_child-self (p.reread all.whole);
      }

  -- The children that a reader of such a type finds by their names
  Picks-is_plain :
      (s : Shape n.Kind) (name : List ℕ) (node t : p.Tree)
      → is_plain s ≡ true
      → p.get_child name node ≡ some t
      → Picks p s name node t
  Picks-is_plain (number k) name node t h e = e
  Picks-is_plain string name node t h e = e
  Picks-is_plain (named_enum items) name node t h e = e
  Picks-is_plain (smart_pointer s) name node t h e = Picks-is_plain s name node t h e
  Picks-is_plain (sequence s) name node t h e = e
  Picks-is_plain (pair s r) name node t h e = cc
  Picks-is_plain (reflected own bs fs) name node t h e = cc

  pub pair-Kept :
      (s t : Shape n.Kind) (x : El s) (y : El t)
      → is_plain s ≡ true
      → is_plain t ≡ true
      → Kept s x
      → Kept t y
      → Kept (pair s t) (x, y)
  unfolding content from_xml
  pair-Kept s t x y plain_s plain_t a b =
      let first = p.add id_key a.item (p.leaf []) in
      let whole = p.add value_key b.item first in
      let id_found : find p id_key (p.reread whole) ≡ some (p.reread a.item) =
        reread_present p id_key whole a.item (
          find-add_other p value_key id_key b.item first refl (ground arith)
          ∙ find-add p id_key a.item (p.leaf []) refl (find-leaf p id_key [])) in
      let value_fresh =
        find-add_other p id_key value_key a.item (p.leaf []) refl (ground arith)
        ∙ find-leaf p value_key [] in
      let value_found : find p value_key (p.reread whole) ≡ some (p.reread b.item) =
        reread_present p value_key whole b.item
          (find-add p value_key b.item first refl value_fresh) in
      record {
        item = whole;
        wrote = rw (a.wrote, b.wrote);
        red = λ node old name same.
            rw
              (
                same,
                a.red (p.reread whole) old.0 id_key (
                    Picks-is_plain s id_key (p.reread whole) (p.reread a.item) plain_s
                      (p.get_child-lookup id_key (p.reread whole) refl ∙ id_found)),
                b.red (p.reread whole) old.1 value_key (
                    Picks-is_plain t value_key (p.reread whole) (p.reread b.item) plain_t
                      (p.get_child-lookup value_key (p.reread whole) refl ∙ value_found)),
              )
              refl;
        alone = refl;
      }
