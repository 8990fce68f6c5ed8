-- ===== src/Net/Http/ParamPack.antt =====
-- include/mif/net/http/detail/param_pack.h and converter/url/param.h: the parameters of a request as
-- a structure of the handler.
use mif.Prelude.{
  ltb, leb, if◌then◌else◌, ◌==◌, invalid_argument, runtime_error, out_of_range, Result, ok, throws,
  ◌>>=◌, ℕ, ◌+◌, ◌-◌, ◌*◌, ◌%◌, ◌^◌, Bool, true, false, ◌&&◌, ◌||◌, Option, none, some, List, [],
  ◌∷◌, bytes_eq, nat_eq,
}
use mif.Prelude.Map.{lookup}
use mif.Serialization.Json.{fails, done}
use mif.Serialization.Json.Numbers.{Integer, bits}
use mif.Serialization.Json.Convert.{string_to_enum}
pub mod Integers
pub mod Sets
pub mod Missing
mod Tests

-- Floating numbers, dates and `bool` are left out.
pub data Shape : Type 0 where
  string : Shape
  integral : Integer → Shape
  named_enum : List (List ℕ × ℕ) → Shape
  sequence : Shape → Shape

abbrev pub El : Shape → Type 0
El string = List ℕ
El (integral i) = ℕ
El (named_enum items) = ℕ
El (sequence s) = List (El s)

-- `std::isspace`
abbrev pub is_blank : ℕ → Bool
is_blank c = c == 32 || leb 9 c && leb c 13

unfoldable pub skip_blanks : List ℕ → List ℕ
skip_blanks [] = []
skip_blanks (c ∷ text) = let rest = skip_blanks text in if is_blank c then rest else c ∷ text

abbrev pub is_digit : ℕ → Bool
is_digit c = leb 48 c && leb c 57

unfoldable pub take_digits : List ℕ → List ℕ
take_digits [] = []
take_digits (c ∷ text) = let rest = take_digits text in if is_digit c then c ∷ rest else []

unfoldable pub number_of : ℕ → List ℕ → ℕ
number_of n [] = n
number_of n (c ∷ text) = number_of (10 * n + (c - 48)) text

unfoldable pub positive : List ℕ → Result ℕ
unfolding number_of
positive [] = throws invalid_argument
positive (c ∷ text) =
    let n = number_of 0 (c ∷ text) in if ltb n (2 ^ 63) then ok n else throws out_of_range

unfoldable pub negative : List ℕ → Result ℕ
unfolding number_of
negative [] = throws invalid_argument
negative (c ∷ text) =
    let n = number_of 0 (c ∷ text) in
    if leb n (2 ^ 63) then ok ((2 ^ 64 - n) % 2 ^ 64) else throws out_of_range

unfoldable pub signed : List ℕ → Result ℕ
unfolding positive negative take_digits
signed [] = throws invalid_argument
signed (c ∷ text) =
    if c == 45
    then negative (take_digits text)
    else if c == 43
    then positive (take_digits text)
    else positive (take_digits (c ∷ text))

-- `std::stoll`; what follows the number is not looked at.
unfoldable pub stoll : List ℕ → Result ℕ
unfolding signed skip_blanks
stoll text = signed (skip_blanks text)

-- `boost::split` at each ";"
abbrev pub onto_first : ℕ → List (List ℕ) → List (List ℕ)
onto_first c [] = (c ∷ []) ∷ []
onto_first c (part ∷ parts) = (c ∷ part) ∷ parts

unfoldable pub split : List ℕ → List (List ℕ)
split [] = [] ∷ []
split (c ∷ text) = let rest = split text in if c == 59 then [] ∷ rest else onto_first c rest

-- `std::set<std::string>`: the strings in their order, each one once
unfoldable pub less : List ℕ → List ℕ → Bool
less xs [] = false
less [] (y ∷ ys) = true
less (x ∷ xs) (y ∷ ys) = ltb x y || x == y && less xs ys

unfoldable pub emplace : List ℕ → List (List ℕ) → List (List ℕ)
emplace x [] = x ∷ []
emplace x (y ∷ ys) =
    let rest = emplace x ys in
    if less x y then x ∷ y ∷ ys else if less y x then y ∷ rest else y ∷ ys

unfoldable pub set_of : List (List ℕ) → List (List ℕ)
unfolding emplace
set_of [] = []
set_of (x ∷ xs) = emplace x (set_of xs)

unfoldable pub convert_all : {A : Type 0} → (List ℕ → Result A) → List (List ℕ) → Result (List A)
convert_all convert [] = ok []
convert_all convert (x ∷ xs) = convert x >>= λ y. convert_all convert xs >>= λ ys. ok (y ∷ ys)

-- `Param::Convert`
unfoldable pub convert : (s : Shape) → List ℕ → Result (El s)
unfolding stoll set_of split convert_all
convert string text = ok text
convert (integral i) text = stoll text >>= λ n. ok (n % 2 ^ bits i)
convert (named_enum items) text = elim (string_to_enum items text) [
  | fails e ↦ throws invalid_argument
  | done v ↦ ok v
]
convert (sequence s) text = convert_all (convert s) (set_of (split text))

-- The fields of a reflected structure
pub data Fields : Type 0 where
  no_fields : Fields
  required optional : List ℕ → Shape → Fields → Fields

abbrev pub Pack : Fields → Type 0
Pack no_fields = Unit
Pack (required name s fs) = El s × Pack fs
Pack (optional name s fs) = Option (El s) × Pack fs

abbrev pub Params : Type 0
Params = List (List ℕ × List ℕ)

-- `GetParam`
unfoldable pub get_required : (s : Shape) → List ℕ → Params → Result (El s)
unfolding convert
get_required s name params = elim (lookup name params) [
  | none ↦ throws runtime_error
  | some text ↦ convert s text
]

unfoldable pub get_optional : (s : Shape) → List ℕ → Params → Result (Option (El s))
unfolding convert
get_optional s name params = elim (lookup name params) [
  | none ↦ ok none
  | some text ↦ convert s text >>= λ x. ok (some x)
]

-- The fields one after another; the order, in which the compiler may choose, matters only for which
-- exception is thrown.
unfoldable pub get_params : (fs : Fields) → Params → Result (Pack fs)
unfolding get_required get_optional
get_params no_fields params = ok tt
get_params (required name s fs) params =
    get_required s name params >>= λ x. get_params fs params >>= λ rest. ok (x, rest)
get_params (optional name s fs) params =
    get_optional s name params >>= λ x. get_params fs params >>= λ rest. ok (x, rest)
