-- ===== src/Serialization/Xml/Storable.antt =====
-- The types and the objects that xml.h writes without loss.
use mif.Prelude.{All, ℕ, ◌≡◌, ◌≢◌, ◌⊎◌, Bool, true, false, none, some, List}
use mif.Serialization.Json.Storable.{AreNames, IsListed}
use mif.Serialization.Xml.{Ptree, Numbers, is_name}
use mif.Serialization.Xml.Shapes.{
  Shape, Fields, no_fields, field, number, string, named_enum, smart_pointer, sequence, pair,
  reflected, El, Record,
}

module _ {Kind : Type 0} where
  -- Neither a pair nor a reflected type, nor a pointer to one
  abbrev pub is_plain : Shape Kind → Bool
  is_plain (smart_pointer s) = is_plain s
  is_plain (pair s t) = false
  is_plain (reflected own bs fs) = false
  is_plain _ = true

  abbrev pub is_pair : Shape Kind → Bool
  is_pair (smart_pointer s) = is_pair s
  is_pair (pair s t) = true
  is_pair _ = false

  abbrev pub IsAbsent : List ℕ → Fields Kind → Type 0
  IsAbsent k no_fields = Unit
  IsAbsent k (field name s fs) = (name ≢ k) × IsAbsent k fs

  abbrev pub AreDistinct : Fields Kind → Type 0
  AreDistinct no_fields = Unit
  AreDistinct (field name s fs) = IsAbsent name fs × AreDistinct fs

  abbrev pub AreDisjoint : Fields Kind → Fields Kind → Type 0
  AreDisjoint no_fields gs = Unit
  AreDisjoint (field name s fs) gs = IsAbsent name gs × AreDisjoint fs gs

  -- No base and no field has the name of the type, which is looked for first.
  abbrev pub IsHidden : Fields Kind → Fields Kind → Shape Kind → Type 0
  IsHidden bs fs (reflected own cs gs) = (is_name own ≡ true) × IsAbsent own bs × IsAbsent own fs
  IsHidden bs fs (smart_pointer s) = IsHidden bs fs s
  IsHidden bs fs _ = Unit

  abbrev pub AreHidden : Fields Kind → Fields Kind → Fields Kind → Type 0
  AreHidden bs fs no_fields = Unit
  AreHidden bs fs (field name s gs) = IsHidden bs fs s × AreHidden bs fs gs

  -- No pair but as an item of a container, and names that are not mixed up
  abbrev mutual
    pub IsLossless : Shape Kind → Type 0
    IsLossless (named_enum items) = AreNames items
    IsLossless (smart_pointer s) = IsLossless s
    IsLossless (sequence s) = IsLossless s
    IsLossless (pair s t) = IsLossless s × IsLossless t × (is_plain s ≡ true) × (is_plain t ≡ true)
    IsLossless (reflected own bs fs) =
        AreFields bs
        × AreFields fs
        × AreDistinct bs
        × AreDistinct fs
        × AreDisjoint bs fs
        × IsHidden bs fs (reflected own bs fs)
        × AreHidden bs fs bs
        × AreHidden bs fs fs
    IsLossless _ = Unit

    pub AreFields : Fields Kind → Type 0
    AreFields no_fields = Unit
    AreFields (field name s fs) =
        (is_name name ≡ true) × (is_pair s ≡ false) × IsLossless s × AreFields fs

module _ (n : Numbers) where
  -- Numbers that the streams read back, values that the enumeration lists, no null pointers
  abbrev mutual
    pub IsStorable : (s : Shape n.Kind) → El s → Type 0
    IsStorable (number k) x = (old : ℕ) → n.scan k (n.to_string k x) old ≡ x
    IsStorable string text = Unit
    IsStorable (named_enum items) v = IsListed v items
    IsStorable (smart_pointer s) none = ¬ Unit {0}
    IsStorable (smart_pointer s) (some x) = IsStorable s x
    IsStorable (sequence s) xs = All (IsStorable s) xs
    IsStorable (pair s t) (x, y) = IsStorable s x × IsStorable t y
    IsStorable (reflected own bs fs) (inherited, members) =
        AreStorable bs inherited × AreStorable fs members

    pub AreStorable : (fs : Fields n.Kind) → Record fs → Type 0
    AreStorable no_fields r = Unit
    AreStorable (field name s fs) (x, r) = IsStorable s x × AreStorable fs r

module _ (p : Ptree) {Kind : Type 0} where
  -- What a reader finds in the node under the name
  abbrev pub Picks : Shape Kind → List ℕ → p.Tree → p.Tree → Type 0
  Picks (smart_pointer s) name node t = Picks s name node t
  Picks (pair s r) name node t = node ≡ t
  Picks (reflected own bs fs) name node t =
      (p.get_child own node ≡ some t)
      ⊎ ((p.get_child own node ≡ none) × (p.get_child name node ≡ some t))
  Picks s name node t = p.get_child name node ≡ some t
