-- ===== src/Serialization/Json/Shapes.antt =====
-- The C++ types that the templates of json.h accept, with their values.
use mif.Prelude.{ℕ, zero, suc, Bool, false, Option, none, List, [], ◌∷◌}
use mif.Serialization.Json.Numbers.{Integer}

-- `Tag::Id` and `Tag::Value`, the keys of a pair
abbrev pub id_key : List ℕ
id_key = 105 ∷ 100 ∷ []

abbrev pub value_key : List ℕ
value_key = 118 ∷ 97 ∷ 108 ∷ []

-- A `char` is no `integer` here, and the item of no `sequence`: containers of it are `chars`. A
-- reflected type has the bases and the fields that its reflection lists, with their names.
mutual
  pub data Shape : Type 0 where
    boolean double string : Shape
    integer : Integer → Shape
    plain_enum : Integer → Shape
    named_enum : List (List ℕ × ℕ) → Shape
    smart_pointer optional sequence : Shape → Shape
    chars : Shape
    fixed_array : ℕ → Shape → Shape
    pair : Shape → Shape → Shape
    tuple : Shapes → Shape
    reflected : Fields → Fields → Shape

  pub data Shapes : Type 0 where
    no_shapes : Shapes
    shape : Shape → Shapes → Shapes

  pub data Fields : Type 0 where
    no_fields : Fields
    field : List ℕ → Shape → Fields → Fields

abbrev mutual
  pub El : Shape → Type 0
  El boolean = Bool
  El double = ℕ
  El string = List ℕ
  El (integer i) = ℕ
  El (plain_enum i) = ℕ
  El (named_enum items) = ℕ
  El (smart_pointer s) = Option (El s)
  El (optional s) = Option (El s)
  El (sequence s) = List (El s)
  El chars = List ℕ
  El (fixed_array n s) = List (El s)
  El (pair s t) = El s × El t
  El (tuple ss) = Els ss
  El (reflected bases fields) = Record bases × Record fields

  pub Els : Shapes → Type 0
  Els no_shapes = Unit
  Els (shape s ss) = El s × Els ss

  pub Record : Fields → Type 0
  Record no_fields = Unit
  Record (field name s fs) = El s × Record fs

-- A list of `n` times a value
unfoldable pub replicate {ℓ} : {A : Type ℓ} → ℕ → A → List A
replicate zero a = []
replicate (suc n) a = a ∷ replicate n a

-- A value-initialised object, `T{}`
unfoldable mutual
  pub default : (s : Shape) → El s
  default boolean = false
  default double = 0
  default string = []
  default (integer i) = 0
  default (plain_enum i) = 0
  default (named_enum items) = 0
  default (smart_pointer s) = none
  default (optional s) = none
  default (sequence s) = []
  default chars = []
  default (fixed_array n s) = replicate n (default s)
  default (pair s t) = (default s, default t)
  default (tuple ss) = defaults ss
  default (reflected bases fields) = (default_record bases, default_record fields)

  pub defaults : (ss : Shapes) → Els ss
  defaults no_shapes = tt
  defaults (shape s ss) = (default s, defaults ss)

  pub default_record : (fs : Fields) → Record fs
  default_record no_fields = tt
  default_record (field name s fs) = (default s, default_record fs)
