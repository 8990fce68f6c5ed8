-- ===== src/Serialization/Json/Convert.antt =====
-- `JsonValueConverter` of json.h (339-482), and the text of an enumeration in reflection.h (91-159).
use mif.Prelude.{if◌then◌else◌, ◌==◌, ℕ, ◌%◌, ◌^◌, Bool, not, List, [], ◌∷◌, bytes_eq, nat_eq}
use mif.Serialization.Json.{Json, Outcome, fails, done, invalid_value, Library, ◌>>=◌}
use mif.Serialization.Json.Numbers.{
  Integer, int8, uint8, int16, uint16, int32, uint32, int64, uint64, sign_extend, int64_to_string,
  uint64_to_string,
}

-- `boost::json::value_from` of an integer
unfoldable pub value_from : Integer → ℕ → Json
value_from int8 n = Json.int64 (sign_extend 8 n)
value_from uint8 n = Json.uint64 n
value_from int16 n = Json.int64 (sign_extend 16 n)
value_from uint16 n = Json.uint64 n
value_from int32 n = Json.int64 (sign_extend 32 n)
value_from uint32 n = Json.uint64 n
value_from int64 n = Json.int64 n
value_from uint64 n = Json.uint64 n

unfoldable convert_int64 : Json → Outcome ℕ
convert_int64 (Json.int64 v) = done v
convert_int64 _ = fails invalid_value

unfoldable convert_uint64 : Json → Outcome ℕ
convert_uint64 (Json.uint64 v) = done v
convert_uint64 (Json.int64 v) = done v
convert_uint64 _ = fails invalid_value

unfoldable convert_int32 : Json → Outcome ℕ
convert_int32 (Json.int64 v) = done (v % 2 ^ 32)
convert_int32 _ = fails invalid_value

unfoldable convert_uint32 : Json → Outcome ℕ
convert_uint32 (Json.uint64 v) = done (v % 2 ^ 32)
convert_uint32 (Json.int64 v) = done (v % 2 ^ 32)
convert_uint32 _ = fails invalid_value

-- The narrower ones, the unsigned among them, cast what the converter of `std::int32_t` gives.
unfoldable pub convert : Integer → Json → Outcome ℕ
unfolding convert_int64 convert_uint64 convert_int32 convert_uint32
convert int64 j = convert_int64 j
convert uint64 j = convert_uint64 j
convert int32 j = convert_int32 j
convert uint32 j = convert_uint32 j
convert int16 j = convert_int32 j >>= λ v. done (v % 2 ^ 16)
convert uint16 j = convert_int32 j >>= λ v. done (v % 2 ^ 16)
convert int8 j = convert_int32 j >>= λ v. done (v % 2 ^ 8)
convert uint8 j = convert_int32 j >>= λ v. done (v % 2 ^ 8)

unfoldable pub convert_bool : Json → Outcome Bool
convert_bool (Json.boolean b) = done b
convert_bool (Json.int64 v) = done (not (v == 0))
convert_bool (Json.uint64 v) = done (not (v == 0))
convert_bool _ = fails invalid_value

-- A C string ends at its first zero byte.
unfoldable pub c_str : List ℕ → List ℕ
c_str [] = []
c_str (b ∷ s) = if b == 0 then [] else b ∷ c_str s

module _ (lib : Library) where
  unfoldable pub convert_double : Json → Outcome ℕ
  convert_double (Json.double d) = done d
  convert_double (Json.int64 v) = done (lib.int64_to_double v)
  convert_double (Json.uint64 v) = done (lib.uint64_to_double v)
  convert_double _ = fails invalid_value

  unfoldable pub convert_string : Json → Outcome (List ℕ)
  convert_string (Json.boolean b) = done (if b then 49 ∷ [] else 48 ∷ [])
  convert_string (Json.double d) = done (lib.double_to_string d)
  convert_string (Json.int64 v) = done (int64_to_string v)
  convert_string (Json.string s) = done (c_str s)
  convert_string (Json.uint64 v) = done (uint64_to_string v)
  convert_string _ = fails invalid_value

-- `EnumValueToString` and `StringToEnumValue`, whose items are tried from the last one: the list
-- holds them in that order.
unfoldable pub enum_to_string : List (List ℕ × ℕ) → ℕ → Outcome (List ℕ)
enum_to_string [] v = fails invalid_value
enum_to_string ((name, value) ∷ items) v = if value == v then done name else enum_to_string items v

unfoldable pub string_to_enum : List (List ℕ × ℕ) → List ℕ → Outcome ℕ
string_to_enum [] text = fails invalid_value
string_to_enum ((name, value) ∷ items) text =
    if text == name then done value else string_to_enum items text
