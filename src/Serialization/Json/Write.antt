-- ===== src/Serialization/Json/Write.antt =====
-- `ValueToJson` of json.h (171-337), one clause for each kind of type, and `Serialize` (828-883).
use mif.Prelude.{
  ltb, if◌then◌else◌, ℕ, zero, suc, ◌+◌, ◌-◌, ◌/◌, ◌%◌, ◌^◌, none, some, List, [], ◌∷◌, ◌++◌,
}
use mif.Serialization.Json.{
  Json, Items, no_items, item, Members, no_members, Outcome, done, Library, ◌>>=◌,
}
use mif.Serialization.Json.Shapes.{
  Shape, Shapes, no_shapes, shape, Fields, no_fields, field, boolean, double, string, integer,
  plain_enum, named_enum, smart_pointer, optional, sequence, chars, fixed_array, pair, tuple,
  reflected, El, Els, Record, id_key, value_key,
}
use mif.Serialization.Json.Convert.{value_from, enum_to_string}

-- Two hexadecimal digits at least; a negative `char` is an `int` of eight.
unfoldable hex_digits : ℕ → ℕ → List ℕ
hex_digits zero n = []
hex_digits (suc fuel) n =
    let front = hex_digits fuel (n / 16) in
    (if ltb n 16 then [] else front) ++ (if ltb (n % 16) 10 then 48 + n % 16 else 87 + n % 16) ∷ []

unfoldable hex_int : ℕ → List ℕ
unfolding hex_digits
hex_int n = let printed = hex_digits 8 n in if ltb n 16 then 48 ∷ printed else printed

-- `static_cast<int>` of a `char`
abbrev char_to_int : ℕ → ℕ
char_to_int c = if ltb c 128 then c else c + (2 ^ 32 - 2 ^ 8)

unfoldable pub write_chars : List ℕ → List ℕ
unfolding hex_int
write_chars [] = []
write_chars (c ∷ cs) = hex_int (char_to_int c) ++ 32 ∷ write_chars cs

-- The loop that writes the items of a container
unfoldable pub write_items {ℓ} : {A : Type ℓ} → (A → Outcome Json) → List A → Outcome Items
write_items write [] = done no_items
write_items write (x ∷ xs) = write x >>= λ j. write_items write xs >>= λ js. done (item j js)

module _ (lib : Library) where
  -- `TupleToJson`, `BasesSerializer` and `Serializer` go along the types.
  unfoldable mutual
    pub to_json : (s : Shape) → El s → Outcome Json
    to_json boolean b = done (Json.boolean b)
    to_json double d = done (Json.double d)
    to_json string text = done (Json.string text)
    to_json (integer i) n = done (value_from i n)
    to_json (plain_enum i) n = done (value_from i n)
    to_json (named_enum items) v = enum_to_string items v >>= λ name. done (Json.string name)
    to_json (smart_pointer s) none = done Json.null
    to_json (smart_pointer s) (some x) = to_json s x
    to_json (optional s) none = done Json.null
    to_json (optional s) (some x) = to_json s x
    to_json (sequence s) xs = write_items (to_json s) xs >>= λ items. done (Json.array items)
    to_json chars cs = done (Json.array (item (Json.string (write_chars cs)) no_items))
    to_json (fixed_array n s) xs = write_items (to_json s) xs >>= λ items. done (Json.array items)
    to_json (pair s t) (x, y) = do
      first ← to_json s x
      second ← to_json t y
      done (Json.object (lib.set value_key second (lib.set id_key first no_members)))
    to_json (tuple ss) xs = write_tuple ss xs >>= λ items. done (Json.array items)
    to_json (reflected bases fields) (inherited, own) = do
      root ← write_record bases inherited no_members
      whole ← write_record fields own root
      done (Json.object whole)

    pub write_tuple : (ss : Shapes) → Els ss → Outcome Items
    write_tuple no_shapes xs = done no_items
    write_tuple (shape s ss) (x, xs) =
        to_json s x >>= λ j. write_tuple ss xs >>= λ js. done (item j js)

    pub write_record : (fs : Fields) → Record fs → Members → Outcome Members
    write_record no_fields r root = done root
    write_record (field name s fs) (x, r) root =
        to_json s x >>= λ j. write_record fs r (lib.set name j root)
