-- ===== src/Serialization/Json/Numbers.antt =====
-- The integers of json.h as bit patterns, and `std::to_string` of them.
use mif.Prelude.{
  ltb, if◌then◌else◌, ℕ, zero, suc, ◌+◌, ◌-◌, ◌/◌, ◌%◌, ◌^◌, ◌≡◌, refl, List, [], ◌∷◌, ◌++◌,
}

pub data Integer : Type 0 where
  int8 uint8 int16 uint16 int32 uint32 int64 uint64 : Integer

abbrev pub bits : Integer → ℕ
bits int8 = 8
bits uint8 = 8
bits int16 = 16
bits uint16 = 16
bits int32 = 32
bits uint32 = 32
bits int64 = 64
bits uint64 = 64

-- A conversion to 64 bits: the sign bit, with the weight of what lies above, is passed on.
abbrev pub sign_extend : ℕ → ℕ → ℕ
sign_extend w n = if ltb n (2 ^ (w - 1)) then n else n + (2 ^ 64 - 2 ^ w)

-- The decimal digits, the last one first taken off; 20 of them hold 64 bits.
unfoldable pub digits : ℕ → ℕ → List ℕ
digits zero n = []
digits (suc fuel) n =
    let front = digits fuel (n / 10) in (if ltb n 10 then [] else front) ++ (48 + n % 10) ∷ []

unfoldable pub uint64_to_string : ℕ → List ℕ
unfolding digits
uint64_to_string n = digits 20 n

unfoldable pub int64_to_string : ℕ → List ℕ
unfolding uint64_to_string
int64_to_string n =
    if ltb n (2 ^ 63) then uint64_to_string n else 45 ∷ uint64_to_string (2 ^ 64 - n)

int64_to_string_min : int64_to_string (2 ^ 64 - 120) ≡ 45 ∷ 49 ∷ 50 ∷ 48 ∷ []
unfolding int64_to_string
int64_to_string_min = refl
