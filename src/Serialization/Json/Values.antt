-- ===== src/Serialization/Json/Values.antt =====
-- Simple values, written and read: integers, texts, enumerations and lists of items.
use mif.Prelude.{
  nat_beq_iff, Bool-cases, ◌==◌, length, All, bytes_beq_iff, ℕ, ◌^◌, ◌<◌, ◌≡◌, refl, ap, ◌≢◌, inl,
  inr, List, [], ◌∷◌, arith, bytes_eq, nat_eq,
}
use mif.Serialization.Json.{Json, Items, Outcome, done, reparsed, reparsed_items, no_items, item}
use mif.Serialization.Json.Numbers.{
  Integer, int8, uint8, int16, uint16, int32, uint32, int64, uint64, bits,
}
use mif.Serialization.Json.Convert.{value_from, convert, c_str, enum_to_string, string_to_enum}
use mif.Serialization.Json.Write.{write_items}
use mif.Serialization.Json.Read.{read_items, read_array, unless_null}
use mif.Serialization.Json.Storable.{IsText, AreNames, IsListed}

pub convert-value_from :
    (i : Integer) (n : ℕ)
    → n < 2 ^ bits i
    → unless_null (reparsed (value_from i n)) (convert i (reparsed (value_from i n))) ≡ done n
unfolding convert value_from reparsed unless_null
convert-value_from int8 n h = ground arith
convert-value_from uint8 n h = ground arith
convert-value_from int16 n h = ground arith
convert-value_from uint16 n h = ground arith
convert-value_from int32 n h = ground arith
convert-value_from uint32 n h = ground arith
convert-value_from int64 n h = ground arith
convert-value_from uint64 n h = ground arith

pub c_str-IsText : (text : List ℕ) → IsText text → c_str text ≡ text
unfolding c_str
c_str-IsText [] h = refl
c_str-IsText (b ∷ text) h = ground (arith, c_str-IsText text h.1)

-- A name that is written is one of the names.
enum_to_string-among :
    (items : List (List ℕ × ℕ)) (v : ℕ) (name written : List ℕ)
    → All (λ (other : List ℕ × ℕ). other.0 ≢ name) items
    → enum_to_string items v ≡ done written
    → name ≢ written
unfolding enum_to_string
enum_to_string-among [] v name written others h = cc
enum_to_string-among ((n, value) ∷ items) v name written others h =
    ground (arith, enum_to_string-among items v name written others.1)

-- The name that is written for a listed value is read as it.
pub string_to_enum-enum_to_string :
    (items : List (List ℕ × ℕ)) (v : ℕ)
    → AreNames items
    → IsListed v items
    → (name : List ℕ) × (enum_to_string items v ≡ done name)
      × IsText name
      × (string_to_enum items name ≡ done v)
unfolding enum_to_string string_to_enum
string_to_enum-enum_to_string [] v names listed = absurd (listed tt)
string_to_enum-enum_to_string ((name, value) ∷ items) v (text, others, rest) listed =
    elim (Bool-cases (value == v)) [
      | inl same ↦ (
        name,
        rw same,
        text,
        rw ((bytes_beq_iff name name).1 refl) (ap done ((nat_beq_iff value v).0 same)),
      )
      | inr differs ↦
          let (written, wrote, plain, red) =
            string_to_enum-enum_to_string items v rest (ground arith) in
          let other = enum_to_string-among items v name written others wrote in
          (written, rw (differs, wrote), plain, ground (arith, bytes_beq_iff written name))
    ]

module _ {ℓ} {A : Type ℓ} (write : A → Outcome Json) (read : Json → Outcome A) where
  -- An object that is written, and read back from what was written
  abbrev pub ComesBack : A → Type ℓ
  ComesBack x = (j : Json) × (write x ≡ done j) × (read (reparsed j) ≡ done x)

  pub read_items-write_items :
      (xs : List A)
      → All ComesBack xs
      → (js : Items) × (write_items write xs ≡ done js)
        × (read_items read (reparsed_items js) ≡ done xs)
        × (read_array read (length xs) (reparsed_items js) ≡ done xs)
  unfolding write_items read_items read_array reparsed
  read_items-write_items [] back = (no_items, refl, refl, refl)
  read_items-write_items (x ∷ xs) ((j, wrote, red), back) =
      let (js, wrote_all, read_all, read_n) = read_items-write_items xs back in
      (item j js, rw (wrote, wrote_all), rw (red, read_all), rw (red, read_n))
