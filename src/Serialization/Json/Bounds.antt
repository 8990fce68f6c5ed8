-- ===== src/Serialization/Json/Bounds.antt =====
-- The range of the integers that json.h reads.
use mif.Prelude.{
  if◌then◌else◌, ℕ, ◌-◌, ◌%◌, ◌^◌, ◌≤◌, ◌<◌, ◌≡◌, refl, ◌↔◌, ◌⊎◌, Bool, true, false, arith,
}
use mif.Serialization.Json.{Json, done, fails, invalid_value}
use mif.Serialization.Json.Numbers.{
  Integer, int8, uint8, int16, uint16, int32, uint32, int64, uint64, bits, sign_extend,
}
use mif.Serialization.Json.Convert.{convert}

abbrev pub is_signed : Integer → Bool
is_signed int8 = true
is_signed int16 = true
is_signed int32 = true
is_signed int64 = true
is_signed _ = false

-- The integer of a value of the type, as a pattern of 64 bits
abbrev pub widened : Integer → ℕ → ℕ
widened i v = if is_signed i then sign_extend (bits i) v else v

-- The integers, as patterns of 64 bits, that the type has
abbrev pub IsInRange : Integer → ℕ → Type 0
IsInRange i n =
    if is_signed i then (n < 2 ^ (bits i - 1)) ⊎ (2 ^ 64 - 2 ^ (bits i - 1) ≤ n) else n < 2 ^ bits i

-- The types that take a number that JSON has as an unsigned one, which is one of 2 ^ 63 and more
abbrev pub takes_unsigned : Integer → Bool
takes_unsigned uint32 = true
takes_unsigned uint64 = true
takes_unsigned _ = false

widened-mod : (i : Integer) (n : ℕ) → n < 2 ^ 64 → (widened i (n % 2 ^ bits i) ≡ n) ↔ IsInRange i n
widened-mod int8 n h = ground arith
widened-mod uint8 n h = ground arith
widened-mod int16 n h = ground arith
widened-mod uint16 n h = ground arith
widened-mod int32 n h = ground arith
widened-mod uint32 n h = ground arith
widened-mod int64 n h = ground arith
widened-mod uint64 n h = ground arith

-- Each type takes each signed number; a number from 2 ^ 63 on, which JSON has as an unsigned one, only
-- the unsigned types of 32 and of 64 bits.
convert-both :
    (i : Integer) (n : ℕ)
    → n < 2 ^ 64
    → (convert i (Json.int64 n) ≡ done (n % 2 ^ bits i))
      × (convert i (Json.uint64 n)
          ≡ (if takes_unsigned i then done (n % 2 ^ bits i) else fails invalid_value))
unfolding convert
convert-both int8 n h = ground arith
convert-both uint8 n h = ground arith
convert-both int16 n h = ground arith
convert-both uint16 n h = ground arith
convert-both int32 n h = ground arith
convert-both uint32 n h = ground arith
convert-both int64 n h = ground arith
convert-both uint64 n h = ground arith

-- Of every number of 64 bits that JSON has as a signed one, each integer type reads a value of its
-- own width, the low bits of the number, and never an error. This value is the number exactly if the
-- number is in the range of the type: one out of range wraps round. Of a number that JSON has as an
-- unsigned one, the unsigned types of 32 and of 64 bits read the low bits too, and every other type
-- refuses it with std::invalid_argument.
pub convert-number :
    (i : Integer) (n : ℕ)
    → n < 2 ^ 64
    → (v : ℕ) × (convert i (Json.int64 n) ≡ done v)
      × (v ≡ n % 2 ^ bits i)
      × (v < 2 ^ bits i)
      × (widened i v ≡ n ↔ IsInRange i n)
      × (convert i (Json.uint64 n) ≡ (if takes_unsigned i then done v else fails invalid_value))
convert-number i n h =
    let both = convert-both i n h in
    (n % 2 ^ bits i, both.0, refl, below i, widened-mod i n h, both.1)
  where
    below : (i : Integer) → n % 2 ^ bits i < 2 ^ bits i
    below int8 = omega arith
    below uint8 = omega arith
    below int16 = omega arith
    below uint16 = omega arith
    below int32 = omega arith
    below uint32 = omega arith
    below int64 = omega arith
    below uint64 = omega arith
