-- ===== src/Serialization/Json/Tests.antt =====
-- A library with objects as lists of members, and the theorems of json.h at a message.
use mif.Prelude.{
  if◌then◌else◌, ℕ, ◌-◌, ◌%◌, ◌^◌, ◌<◌, ◌≡◌, refl, ◌↔◌, inl, true, false, some, List, [], ◌∷◌,
  arith,
}
use mif.Serialization.Json.{Json, Members, no_members, member, done, fails, invalid_value}
use mif.Serialization.Json.Numbers.{int8, int16, uint64}
use mif.Serialization.Json.Shapes.{
  Shape, Fields, no_fields, field, boolean, string, integer, named_enum, optional, sequence, pair,
  reflected, Record,
}
use mif.Serialization.Json.Convert.{convert, convert_bool, c_str, convert_string}
use mif.Serialization.Json.Write.{write_chars}
use mif.Serialization.Json.Read.{read_record, from_json, unless_null}
use mif.Serialization.Json.Codec.{library, parse-print}
use mif.Serialization.Json.Storable.{IsLossless, IsStorable}
use mif.Serialization.Json.Bounds.{widened, IsInRange, takes_unsigned, convert-number}
use mif.Serialization.Json.Errors.{AreRead, AreRefused, read_record_iff}
use mif.Serialization.Json.Text.{
  serialize, deserialize, serialize_reflected, deserialize_reflected, deserialize-serialize,
  deserialize_reflected-serialize_reflected,
}

-- struct Base { std::uint64_t id; }; struct Message : Base { std::int16_t level; Color color;
-- boost::optional<std::string> note; std::vector<std::pair<std::int16_t, bool>> marks; };
abbrev id : List ℕ
id = 105 ∷ []

abbrev base_fields : Fields
base_fields = field id (integer uint64) no_fields

abbrev base_bases : Fields
base_bases = field (66 ∷ []) (reflected no_fields base_fields) no_fields

abbrev colors : List (List ℕ × ℕ)
colors = (114 ∷ [], 1) ∷ (103 ∷ [], 7) ∷ []

abbrev message_fields : Fields
message_fields = field (108 ∷ []) (integer int16) (
    field (99 ∷ []) (named_enum colors) (
      field (110 ∷ []) (optional string)
        (field (109 ∷ []) (sequence (pair (integer int16) boolean)) no_fields)))

abbrev message : Record base_bases × Record message_fields
message = (
  ((tt, (2 ^ 40, tt)), tt),
  (2 ^ 16 - 3, (7, (some (72 ∷ 105 ∷ []), ((5, true) ∷ (0, false) ∷ [], tt)))),
)

-- A list of messages, under a name
abbrev message_shape : Shape
message_shape = sequence (reflected base_bases message_fields)

message-IsLossless : IsLossless (reflected base_bases message_fields)
message-IsLossless = ground arith

message-IsStorable : IsStorable (reflected base_bases message_fields) message
message-IsStorable = ground arith

deserialize_reflected-serialize_reflected_example :
    (text : List ℕ) × (serialize_reflected library base_bases message_fields message.0 message.1
      ≡ done text)
    × (deserialize_reflected library base_bases message_fields text ≡ done message)
deserialize_reflected-serialize_reflected_example =
    deserialize_reflected-serialize_reflected library base_bases message_fields message.0 message.1
      message-IsLossless message-IsStorable (λ j e. parse-print j)

deserialize-serialize_example :
    (text : List ℕ) × (serialize library message_shape (message ∷ []) id ≡ done text)
    × (deserialize library message_shape text id ≡ done (message ∷ []))
deserialize-serialize_example =
    deserialize-serialize library message_shape (message ∷ []) id message-IsLossless
      (message-IsStorable, tt) (λ j e. parse-print j)

-- 300 read as a std::int8_t
convert-number_example :
    (v : ℕ) × (convert int8 (Json.int64 300) ≡ done v)
    × (v ≡ 300 % 2 ^ 8)
    × (v < 2 ^ 8)
    × (widened int8 v ≡ 300 ↔ IsInRange int8 300)
    × (convert int8 (Json.uint64 300)
        ≡ (if takes_unsigned int8 then done v else fails invalid_value))
convert-number_example = convert-number int8 300 (ground arith)

-- A boolean that is there, and a text that is missing
abbrev flags : Fields
flags = field (98 ∷ []) boolean (field (110 ∷ []) (optional string) no_fields)

abbrev given : Members
given = member (98 ∷ []) (Json.boolean true) no_members

read_record_iff_example :
    let old : Record flags = (false, (some id, tt)) in
    let now : Record flags = (true, (some id, tt)) in
    ((read_record library flags given old ≡ done now) ↔ AreRead library flags given old now)
    × ((read_record library flags given old ≡ fails invalid_value)
        ↔ AreRefused library flags given old invalid_value)
read_record_iff_example =
    read_record_iff library flags given (false, (some id, tt)) (true, (some id, tt)) invalid_value

-- The text keeps its value, and the boolean may not be missing.
read_record_missing :
    (read_record library flags given (false, (some id, tt)) ≡ done (true, (some id, tt)))
    × (read_record library flags no_members (false, (some id, tt)) ≡ fails invalid_value)
unfolding from_json unless_null convert_bool
read_record_missing = (
  (read_record_iff library flags given (false, (some id, tt)) (true, (some id, tt))
        invalid_value).0.1
      (refl, ((refl, refl), tt)),
  (read_record_iff library flags no_members (false, (some id, tt)) (false, (some id, tt))
        invalid_value).1.1
      (inl (refl, refl)),
)

write_chars_negative :
    write_chars (1 ∷ 255 ∷ [])
    ≡ 48 ∷ 49 ∷ 32 ∷ 102 ∷ 102 ∷ 102 ∷ 102 ∷ 102 ∷ 102 ∷ 102 ∷ 102 ∷ 32 ∷ []
unfolding write_chars
write_chars_negative = refl

-- A text ends at its first zero byte.
convert_string_zero : convert_string library (Json.string (65 ∷ 0 ∷ 66 ∷ [])) ≡ done (65 ∷ [])
unfolding convert_string c_str
convert_string_zero = refl
