-- ===== src/Serialization/Json/Read.antt =====
-- `JsonToValue` of json.h (484-741), one clause for each kind of type. A reader is given the object
-- that it assigns to, since a null leaves a pointer and an optional as they were.
use mif.Prelude.{length, ℕ, zero, suc, ◌+◌, ◌%◌, ◌^◌, Option, none, some, List, [], ◌∷◌}
use mif.Serialization.Json.{
  Json, Items, no_items, item, Members, Outcome, fails, done, invalid_value, missing_key, undefined,
  Library, ◌>>=◌,
}
use mif.Serialization.Json.Shapes.{
  Shape, Shapes, no_shapes, shape, Fields, no_fields, field, boolean, double, string, integer,
  plain_enum, named_enum, smart_pointer, optional, sequence, chars, fixed_array, pair, tuple,
  reflected, El, Els, Record, default, id_key, value_key,
}
use mif.Serialization.Json.Convert.{
  convert, convert_bool, convert_double, convert_string, string_to_enum, c_str,
}

-- The check of the simple types, before their converter
unfoldable pub unless_null {ℓ} : {A : Type ℓ} → Json → Outcome A → Outcome A
unless_null Json.null read = fails invalid_value
unless_null _ read = read

unfoldable pub read_items {ℓ} : {A : Type ℓ} → (Json → Outcome A) → Items → Outcome (List A)
read_items read no_items = done []
read_items read (item j js) = read j >>= λ x. read_items read js >>= λ xs. done (x ∷ xs)

-- `array[Indexes] ...`: an index past the end is not checked, and items past the last index are
-- not looked at.
unfoldable pub read_array {ℓ} : {A : Type ℓ} → (Json → Outcome A) → ℕ → Items → Outcome (List A)
read_array read zero js = done []
read_array read (suc n) no_items = fails undefined
read_array read (suc n) (item j js) = read j >>= λ x. read_array read n js >>= λ xs. done (x ∷ xs)

-- `if_object` and `if_array`
abbrev pub if_object : Json → Option Members
if_object (Json.object m) = some m
if_object _ = none

abbrev pub if_array : Json → Option Items
if_array (Json.array xs) = some xs
if_array _ = none

abbrev pub null_if_missing : Option Json → Json
null_if_missing none = Json.null
null_if_missing (some j) = j

-- A pointer to an element, followed without a check
abbrev follow : Option Json → Outcome Json
follow none = fails undefined
follow (some j) = done j

-- `at`
abbrev at : Option Json → Outcome Json
at none = fails missing_key
at (some j) = done j

module _ (lib : Library) where
  -- The loop over the stream: it ends where the stream is no longer good, and a failed extraction
  -- leaves the zero that the loop set.
  unfoldable read_chars : ℕ → List ℕ → List ℕ
  read_chars zero stream = []
  read_chars (suc fuel) stream =
      let (value, rest) = lib.extract_hex stream in
      elim value [ none ↦ 0 | some i ↦ i % 2 ^ 8 ]
      ∷ elim rest [ none ↦ [] | some left ↦ read_chars fuel left ]

  -- An extraction that leaves the stream good has taken a character.
  unfoldable pub text_to_chars : List ℕ → List ℕ
  unfolding read_chars
  text_to_chars [] = []
  text_to_chars (b ∷ text) = let stream = c_str (b ∷ text) in read_chars (length stream + 1) stream

  unfoldable mutual
    unfolding text_to_chars

    pub from_json : (s : Shape) → Json → El s → Outcome (El s)
    from_json boolean j old = unless_null j (convert_bool j)
    from_json double j old = unless_null j (convert_double lib j)
    from_json string j old = unless_null j (convert_string lib j)
    from_json (integer i) j old = unless_null j (convert i j)
    from_json (plain_enum i) j old = unless_null j (convert i j)
    from_json (named_enum items) j old =
        unless_null j (convert_string lib j >>= string_to_enum items)
    from_json (smart_pointer s) Json.null old = done old
    from_json (smart_pointer s) j old = from_json s j (default s) >>= λ x. done (some x)
    from_json (optional s) Json.null old = done old
    from_json (optional s) j old = from_json s j (default s) >>= λ x. done (some x)
    from_json (sequence s) j old = elim (if_array j) [
      | none ↦ fails invalid_value
      | some js ↦ read_items (λ i. from_json s i (default s)) js
    ]
    from_json chars (Json.string text) old = done (text_to_chars text)
    from_json chars _ old = fails invalid_value
    from_json (fixed_array n s) j old = elim (if_array j) [
      | none ↦ fails invalid_value
      | some js ↦ read_array (λ i. from_json s i (default s)) n js
    ]
    from_json (pair s t) j (x, y) = elim (if_object j) [
      | none ↦ fails undefined
      | some m ↦ do
        first ← follow (lib.find id_key m) >>= λ i. from_json s i x
        second ← follow (lib.find value_key m) >>= λ i. from_json t i y
        done (first, second)
    ]
    from_json (tuple ss) j old = elim (if_array j) [
      | none ↦ fails invalid_value
      | some js ↦ read_tuple ss js old
    ]
    from_json (reflected bases fields) j (inherited, own) = elim (if_object j) [
      | none ↦ fails invalid_value
      | some m ↦ do
        above ← read_bases bases m inherited
        members ← read_record fields m own
        done (above, members)
    ]

    pub read_tuple : (ss : Shapes) → Items → Els ss → Outcome (Els ss)
    read_tuple no_shapes js old = done tt
    read_tuple (shape s ss) no_items old = fails undefined
    read_tuple (shape s ss) (item j js) (x, xs) = do
      first ← from_json s j x
      others ← read_tuple ss js xs
      done (first, others)

    -- `BasesDeserializer`
    pub read_bases : (fs : Fields) → Members → Record fs → Outcome (Record fs)
    read_bases no_fields m old = done tt
    read_bases (field name s fs) m (x, r) = do
      value ← at (lib.find name m) >>= λ i. from_json s i x
      others ← read_bases fs m r
      done (value, others)

    -- `Deserializer`: a field that is missing is read as a null.
    pub read_record : (fs : Fields) → Members → Record fs → Outcome (Record fs)
    read_record no_fields m old = done tt
    read_record (field name s fs) m (x, r) = do
      value ← from_json s (null_if_missing (lib.find name m)) x
      others ← read_record fs m r
      done (value, others)
