-- ===== src/Serialization/Json/Storable.antt =====
-- The types and the objects that json.h writes without loss.
use mif.Prelude.{
  length, All, ℕ, ◌^◌, ◌<◌, ◌≡◌, ◌≢◌, ◌⊎◌, Bool, true, false, none, some, List, [], ◌∷◌,
}
use mif.Serialization.Json.Numbers.{bits}
use mif.Serialization.Json.Shapes.{
  Shape, Shapes, no_shapes, shape, Fields, no_fields, field, boolean, double, string, integer,
  plain_enum, named_enum, smart_pointer, optional, sequence, chars, fixed_array, pair, tuple,
  reflected, El, Els, Record,
}

-- A null of such a type is written as that of what it points to.
abbrev pub is_nullable : Shape → Bool
is_nullable (smart_pointer s) = true
is_nullable (optional s) = true
is_nullable _ = false

abbrev pub IsAbsent : List ℕ → Fields → Type 0
IsAbsent k no_fields = Unit
IsAbsent k (field name s fs) = (name ≢ k) × IsAbsent k fs

abbrev pub AreDistinct : Fields → Type 0
AreDistinct no_fields = Unit
AreDistinct (field name s fs) = IsAbsent name fs × AreDistinct fs

abbrev pub AreDisjoint : Fields → Fields → Type 0
AreDisjoint no_fields gs = Unit
AreDisjoint (field name s fs) gs = IsAbsent name gs × AreDisjoint fs gs

-- A text without a zero byte
abbrev pub IsText : List ℕ → Type 0
IsText text = All (λ b. 0 < b) text

abbrev pub AreNames : List (List ℕ × ℕ) → Type 0
AreNames [] = Unit
AreNames ((name, value) ∷ items) =
    IsText name × All (λ (other : List ℕ × ℕ). other.0 ≢ name) items × AreNames items

abbrev pub IsListed : ℕ → List (List ℕ × ℕ) → Type 0
IsListed v [] = ¬ Unit {0}
IsListed v ((name, value) ∷ items) = (value ≡ v) ⊎ IsListed v items

-- The types: no container of `char`, no null of a null, and each name once.
abbrev mutual
  pub IsLossless : Shape → Type 0
  IsLossless (named_enum items) = AreNames items
  IsLossless (smart_pointer s) = (is_nullable s ≡ false) × IsLossless s
  IsLossless (optional s) = (is_nullable s ≡ false) × IsLossless s
  IsLossless (sequence s) = IsLossless s
  IsLossless chars = ¬ Unit {0}
  IsLossless (fixed_array n s) = IsLossless s
  IsLossless (pair s t) = IsLossless s × IsLossless t
  IsLossless (tuple ss) = AreLossless ss
  IsLossless (reflected bases fields) =
      AreFields bases
      × AreFields fields
      × AreDistinct bases
      × AreDistinct fields
      × AreDisjoint bases fields
  IsLossless _ = Unit

  pub AreLossless : Shapes → Type 0
  AreLossless no_shapes = Unit
  AreLossless (shape s ss) = IsLossless s × AreLossless ss

  pub AreFields : Fields → Type 0
  AreFields no_fields = Unit
  AreFields (field name s fs) = IsLossless s × AreFields fs

-- The objects of a type: integers within their width, texts without a zero byte, values of a
-- reflected enumeration that it lists, arrays of their length.
abbrev mutual
  pub IsStorable : (s : Shape) → El s → Type 0
  IsStorable boolean b = Unit
  IsStorable double d = Unit
  IsStorable string text = IsText text
  IsStorable (integer i) n = n < 2 ^ bits i
  IsStorable (plain_enum i) n = n < 2 ^ bits i
  IsStorable (named_enum items) v = IsListed v items
  IsStorable (smart_pointer s) none = Unit
  IsStorable (smart_pointer s) (some x) = IsStorable s x
  IsStorable (optional s) none = Unit
  IsStorable (optional s) (some x) = IsStorable s x
  IsStorable (sequence s) xs = All (IsStorable s) xs
  IsStorable chars cs = Unit
  IsStorable (fixed_array n s) xs = (length xs ≡ n) × All (IsStorable s) xs
  IsStorable (pair s t) (x, y) = IsStorable s x × IsStorable t y
  IsStorable (tuple ss) xs = AreStorable ss xs
  IsStorable (reflected bases fields) (inherited, own) =
      IsStorableRecord bases inherited × IsStorableRecord fields own

  pub AreStorable : (ss : Shapes) → Els ss → Type 0
  AreStorable no_shapes xs = Unit
  AreStorable (shape s ss) (x, xs) = IsStorable s x × AreStorable ss xs

  pub IsStorableRecord : (fs : Fields) → Record fs → Type 0
  IsStorableRecord no_fields r = Unit
  IsStorableRecord (field name s fs) (x, r) = IsStorable s x × IsStorableRecord fs r
