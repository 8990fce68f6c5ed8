-- ===== src/Serialization/Xml/RoundTrip.antt =====
-- What xml.h writes of an object, it reads back.
use mif.Prelude.{All-map, refl, none, some, []}
use mif.Serialization.Json.Values.{string_to_enum-enum_to_string}
use mif.Serialization.Xml.{Ptree, Numbers}
use mif.Serialization.Xml.Shapes.{
  Shape, Fields, no_fields, field, number, string, named_enum, smart_pointer, sequence, pair,
  reflected, El, Record, default,
}
use mif.Serialization.Xml.Write.{content}
use mif.Serialization.Xml.Read.{from_xml}
use mif.Serialization.Xml.Storable.{AreDistinct, IsLossless, AreFields, IsStorable, AreStorable}
use mif.Serialization.Xml.Nodes.{text_of-leaf_reread}
use mif.Serialization.Xml.Items.{Kept, sequence-Kept, pair-Kept}
use mif.Serialization.Xml.Records.{
  IsFresh, RecordKept, IsFresh-leaf, IsFresh-add, field-RecordKept, reflected-Kept,
}

module _ (p : Ptree) (n : Numbers) where
  mutual
    unfolding content from_xml

    pub kept : (s : Shape n.Kind) (x : El s) → IsLossless s → IsStorable n s x → Kept p n s x
    kept (number k) x l h = record {
      item = p.leaf (n.to_string k x);
      wrote = refl;
      red = λ node old name picks. rw (picks, text_of-leaf_reread p (n.to_string k x), h old) refl;
      alone = p.get_child-self _;
    }
    kept string text l h = record {
      item = p.leaf text;
      wrote = refl;
      red = λ node old name picks. rw (picks, text_of-leaf_reread p text) refl;
      alone = p.get_child-self _;
    }
    kept (named_enum items) v l h =
        let (name, wrote, text, red) = string_to_enum-enum_to_string items v l h in
        record {
          item = p.leaf name;
          wrote = rw wrote refl;
          red = λ node old key picks. rw (picks, text_of-leaf_reread p name) red;
          alone = p.get_child-self _;
        }
    kept (smart_pointer s) none l h = absurd (h tt)
    kept (smart_pointer s) (some x) l h =
        let back = kept s x l h in
        record {
          item = back.item;
          wrote = back.wrote;
          red = λ node old name picks. rw (back.red node (default s) name picks) refl;
          alone = back.alone;
        }
    kept (sequence s) xs l h = sequence-Kept p n s xs (All-map (λ x. kept s x l) xs h)
    kept (pair s t) (x, y) l h = pair-Kept p n s t x y l.2 l.3 (kept s x l.0 h.0) (kept t y l.1 h.1)
    kept (reflected own bs fs) (inherited, members) (lb, lf, db, df, apart, hidden, hb, hf) h =
        let above = record_kept bs inherited lb db h.0 (p.leaf []) (IsFresh-leaf p n bs) in
        let below =
          record_kept fs members lf df h.1 above.whole
            (above.fresh_for fs apart (IsFresh-leaf p n fs)) in
        reflected-Kept p n own bs fs inherited members apart hidden hb hf above below

    record_kept :
        (fs : Fields n.Kind) (r : Record fs)
        → AreFields fs
        → AreDistinct fs
        → AreStorable n fs r
        → (root : p.Tree) → IsFresh p n fs root
        → RecordKept p n fs r root
    record_kept no_fields r l d h root fresh = record {
      whole = root;
      wrote = refl;
      kept = λ q _. refl;
      fresh_for = λ gs _ new. new;
      red = λ final old _ _. refl;
    }
    record_kept (field name s fs) (x, r) (named, single, l, rest) d h root fresh =
        let back = kept s x l h.0 in
        field-RecordKept p n name s fs x r root named single d.0 fresh.0 back (
          record_kept fs r rest d.1 h.1 (p.add name back.item root)
            (IsFresh-add p n fs name back.item root named d.0 fresh.1))
