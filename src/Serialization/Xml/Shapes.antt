-- ===== src/Serialization/Xml/Shapes.antt =====
-- The C++ types that the templates of xml.h accept, with their values. `std::tuple` and `std::array`
-- are left out: the readers of xml.h take no constant node for them.
use mif.Prelude.{ℕ, Option, none, List, []}

-- A reflected type has its name, its bases with their full names, and its fields.
module _ (Kind : Type 0) where
  mutual
    pub data Shape : Type 0 where
      number : Kind → Shape
      string : Shape
      named_enum : List (List ℕ × ℕ) → Shape
      smart_pointer sequence : Shape → Shape
      pair : Shape → Shape → Shape
      reflected : List ℕ → Fields → Fields → Shape

    pub data Fields : Type 0 where
      no_fields : Fields
      field : List ℕ → Shape → Fields → Fields

module _ {Kind : Type 0} where
  abbrev mutual
    pub El : Shape Kind → Type 0
    El (number k) = ℕ
    El string = List ℕ
    El (named_enum items) = ℕ
    El (smart_pointer s) = Option (El s)
    El (sequence s) = List (El s)
    El (pair s t) = El s × El t
    El (reflected name bases fields) = Record bases × Record fields

    pub Record : Fields Kind → Type 0
    Record no_fields = Unit
    Record (field name s fs) = El s × Record fs

  unfoldable mutual
    pub default : (s : Shape Kind) → El s
    default (number k) = 0
    default string = []
    default (named_enum items) = 0
    default (smart_pointer s) = none
    default (sequence s) = []
    default (pair s t) = (default s, default t)
    default (reflected name bases fields) = (default_record bases, default_record fields)

    pub default_record : (fs : Fields Kind) → Record fs
    default_record no_fields = tt
    default_record (field name s fs) = (default s, default_record fs)
