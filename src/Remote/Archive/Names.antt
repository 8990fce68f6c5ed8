-- ===== src/Remote/Archive/Names.antt =====
-- The names of parameters that follow each other differ.
use mif.Prelude.{
  ltb, if◌then◌else◌, ℕ, suc, ◌+◌, ◌/◌, ◌%◌, ◌≡◌, refl, ap, ◌≢◌, List, [], ◌∷◌, ◌++◌, arith,
}
use mif.Serialization.Json.Numbers.{digits, uint64_to_string}
use mif.Remote.Archive.{param_name}

unfoldable last_or : ℕ → List ℕ → ℕ
last_or old [] = old
last_or old (x ∷ xs) = last_or x xs

last_or-append : (xs : List ℕ) (old x : ℕ) → last_or old (xs ++ x ∷ []) ≡ x
unfolding last_or
last_or-append [] old x = refl
last_or-append (y ∷ xs) old x = last_or-append xs y x

last_or-digits : (fuel index old : ℕ) → last_or old (digits (suc fuel) index) ≡ 48 + index % 10
unfolding digits
last_or-digits fuel index old =
    last_or-append (if ltb index 10 then [] else digits fuel (index / 10)) old (48 + index % 10)

last_or-param_name : (index : ℕ) → last_or 0 (param_name index) ≡ 48 + index % 10
unfolding param_name uint64_to_string last_or
last_or-param_name index = last_or-digits 19 index 109

pub param_name-suc : (index : ℕ) → param_name index ≢ param_name (suc index)
param_name-suc index e =
    omega (arith, ap (last_or 0) e, last_or-param_name index, last_or-param_name (suc index))
