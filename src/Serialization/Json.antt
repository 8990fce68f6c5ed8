-- ===== src/Serialization/Json.antt =====
-- include/mif/serialization/json.h: objects as JSON values, and back. The kinds of a value are those
-- of the `switch` of `Detail::Write`; the library that the file calls is a parameter.
use mif.Prelude.{
  ltb, if◌then◌else◌, ℕ, ◌^◌, ◌≡◌, ◌≢◌, Bool, true, false, Option, none, some, List, [], ◌∷◌,
  bytes_eq, nat_eq,
}
pub mod Numbers
pub mod Shapes
pub mod Convert
pub mod Write
pub mod Read
pub mod Storable
pub mod Values
pub mod Records
pub mod RoundTrip
pub mod Text
pub mod Bounds
pub mod Errors
pub mod Codec
mod Tests

-- `boost::json::value`. A number of 64 bits and a double are their bit patterns, a string its bytes.
mutual
  pub data Json : Type 0 where
    null : Json
    boolean : Bool → Json
    int64 uint64 double : ℕ → Json
    string : List ℕ → Json
    array : Items → Json
    object : Members → Json

  pub data Items : Type 0 where
    no_items : Items
    item : Json → Items → Items

  pub data Members : Type 0 where
    no_members : Members
    member : List ℕ → Json → Members → Members

-- `empty` of a text
abbrev pub is_empty : List ℕ → Bool
is_empty [] = true
is_empty (b ∷ text) = false

-- Why a value is not read. `undefined` is what C++ leaves undefined: a null pointer that is
-- followed, or an index past the end of an array.
pub data Failure : Type 0 where
  invalid_value missing_key not_object not_array parse_error undefined : Failure

pub data Outcome {ℓ} (R : Type ℓ) : Type ℓ where
  fails : Failure → Outcome R
  done : R → Outcome R

infixl 5 ◌>>=◌
abbrev pub ◌>>=◌ {ℓ κ} : {R : Type ℓ} {S : Type κ} → Outcome R → (R → Outcome S) → Outcome S
fails x >>= next = fails x
done value >>= next = next value

-- The value as the text is printed and read: a number that fits 63 bits comes back signed.
unfoldable mutual
  pub reparsed : Json → Json
  reparsed null = null
  reparsed (boolean b) = boolean b
  reparsed (int64 n) = int64 n
  reparsed (uint64 n) = if ltb n (2 ^ 63) then int64 n else uint64 n
  reparsed (double d) = double d
  reparsed (string s) = string s
  reparsed (array xs) = array (reparsed_items xs)
  reparsed (object m) = object (reparsed_members m)

  pub reparsed_items : Items → Items
  reparsed_items no_items = no_items
  reparsed_items (item j xs) = item (reparsed j) (reparsed_items xs)

  pub reparsed_members : Members → Members
  reparsed_members no_members = no_members
  reparsed_members (member k j m) = member k (reparsed j) (reparsed_members m)

abbrev pub reparsed_if : Option Json → Option Json
reparsed_if none = none
reparsed_if (some j) = some (reparsed j)

-- What the code calls of boost::json and of the floating numbers, with what it relies on.
pub record Library : Type 0 where
  -- `operator []`, `at`, `contains` and `if_contains` of an object
  pub find : List ℕ → Members → Option Json
  pub set : List ℕ → Json → Members → Members
  pub find-set : (k : List ℕ) (j : Json) (m : Members) → find k (set k j m) ≡ some j
  pub find-set_other :
      (k q : List ℕ) (j : Json) (m : Members) → k ≢ q → find q (set k j m) ≡ find q m
  pub find-no_members : (k : List ℕ) → find k no_members ≡ none
  -- `erase(find(k))`
  pub remove : List ℕ → Members → Members
  pub find-remove_other : (k q : List ℕ) (m : Members) → k ≢ q → find q (remove k m) ≡ find q m
  pub find-reparsed :
      (k : List ℕ) (m : Members) → find k (reparsed_members m) ≡ reparsed_if (find k m)
  -- `operator <<` of a value, and `parse`
  pub print : Json → List ℕ
  pub parse : List ℕ → Outcome Json
  -- `std::to_string` of a double, and the conversions of numbers to it
  pub double_to_string : ℕ → List ℕ
  pub int64_to_double : ℕ → ℕ
  pub uint64_to_double : ℕ → ℕ
  -- a `std::stringstream` at `>> std::hex >> i`: the number, or none where the extraction fails, and
  -- what is left; the stream is good as long as it has not met its end
  pub extract_hex : List ℕ → Option ℕ × Option (List ℕ)
