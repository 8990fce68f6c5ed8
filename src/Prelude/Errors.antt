-- ===== src/Prelude/Errors.antt =====
-- C++ exceptions as values: what a call returns, or what it throws.
use mathlib.Core.Path.{◌≡◌, refl, ap}
use mathlib.Core.Bool.{Bool, true, false}

-- The standard classes that the sources throw, and anything that is no `std::exception`.
pub data Exception : Type 0 where
  invalid_argument logic_error runtime_error out_of_range non_standard : Exception

pub data Result {ℓ} (R : Type ℓ) : Type ℓ where
  throws : Exception → Result R
  ok : R → Result R

infixl 5 ◌>>=◌ ◌>>◌
-- A call, and what is done with the value that it returns
abbrev pub ◌>>=◌ {ℓ κ} : {R : Type ℓ} {S : Type κ} → Result R → (R → Result S) → Result S
throws x >>= next = throws x
ok value >>= next = next value

abbrev pub ◌>>◌ {ℓ} : {S : Type ℓ} → Result (Unit {0}) → Result S → Result S
first >> last = first >>= λ done. last

-- `if (test) throw e;`
abbrev pub throw_if : Bool → Exception → Result (Unit {0})
throw_if true e = throws e
throw_if false e = ok tt

-- Where a chain of calls returns, its first call returned, and so did the rest.
pub >>=-eq-ok {ℓ κ} :
    {R : Type ℓ} {S : Type κ} (call : Result R) (next : R → Result S) {last : S}
    → (call >>= next) ≡ ok last
    → (first : R) × (call ≡ ok first) × (next first ≡ ok last)
>>=-eq-ok (throws x) next h = cc
>>=-eq-ok (ok first) next h = (first, refl, h)

pub ok-injective {ℓ} : {A : Type ℓ} (a b : A) → ok a ≡ ok b → a ≡ b
ok-injective {A = A} a b h = ap value h
  where
    value : Result A → A
    value (ok x) = x
    value (throws e) = a
