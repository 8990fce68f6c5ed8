-- ===== src/Net/Http/ParamPack/Integers.antt =====
-- Integers as the parameters of a request.
use mif.Prelude.{
  ltb, Bool-cases, if◌then◌else◌, out_of_range, ok, throws, All, All-append, ℕ, zero, suc, ◌+◌, ◌-◌,
  ◌*◌, ◌/◌, ◌%◌, ◌^◌, ◌≤◌, ◌<◌, ◌≡◌, refl, ap, ◌∙◌, ◌≢◌, inl, inr, false, List, [], ◌∷◌, ◌++◌,
  arith,
}
use mif.Serialization.Json.Numbers.{
  Integer, int8, uint8, int16, uint16, int32, uint32, int64, uint64, bits, sign_extend, digits,
  uint64_to_string, int64_to_string,
}
use mif.Net.Http.ParamPack.{
  integral, is_blank, skip_blanks, take_digits, number_of, positive, negative, signed, stoll,
  convert,
}

abbrev IsDigit : ℕ → Type 0
IsDigit c = (48 ≤ c) × (c ≤ 57)

digits-IsDigit : (fuel n : ℕ) → All IsDigit (digits fuel n)
unfolding digits
digits-IsDigit zero n = tt
digits-IsDigit (suc fuel) n =
    All-append IsDigit (if ltb n 10 then [] else digits fuel (n / 10)) ((48 + n % 10) ∷ [])
      (elim (Bool-cases (ltb n 10)) [
        | inl small ↦ rw small tt
        | inr large ↦ rw large (digits-IsDigit fuel (n / 10))
      ])
      ((omega arith, omega arith), tt)

number_of-append :
    (xs : List ℕ) (n c : ℕ) → number_of n (xs ++ c ∷ []) ≡ 10 * number_of n xs + (c - 48)
unfolding number_of
number_of-append [] n c = refl
number_of-append (x ∷ xs) n c = number_of-append xs (10 * n + (x - 48)) c

-- `10 ^ fuel`
unfoldable tenfold : ℕ → ℕ
tenfold zero = 1
tenfold (suc fuel) = 10 * tenfold fuel

number_of-digits : (fuel n : ℕ) → n < tenfold fuel → number_of 0 (digits fuel n) ≡ n
unfolding digits number_of tenfold
number_of-digits zero n h = omega arith
number_of-digits (suc fuel) n h = elim (Bool-cases (ltb n 10)) [
  | inl small ↦ rw small (ground arith)
  | inr large ↦
      rw
        (
          large,
          number_of-append (digits fuel (n / 10)) 0 (48 + n % 10),
          number_of-digits fuel (n / 10) (omega arith),
        )
        (omega arith)
]

take_digits-IsDigit : (text : List ℕ) → All IsDigit text → take_digits text ≡ text
unfolding take_digits
take_digits-IsDigit [] h = refl
take_digits-IsDigit (c ∷ text) h = ground (arith, take_digits-IsDigit text h.1)

digits-nonempty : (fuel n : ℕ) → digits (suc fuel) n ≢ []
unfolding digits
digits-nonempty fuel n =
    append-nonempty (if ltb n 10 then [] else digits fuel (n / 10)) (48 + n % 10)
  where
    append-nonempty : (xs : List ℕ) (c : ℕ) → xs ++ c ∷ [] ≢ []
    append-nonempty [] c e = cc
    append-nonempty (x ∷ xs) c e = cc

-- A text of digits, and one after a minus
stoll-IsDigit : (text : List ℕ) → text ≢ [] → All IsDigit text → stoll text ≡ positive text
unfolding stoll skip_blanks signed
stoll-IsDigit [] given h = absurd (given refl)
stoll-IsDigit (c ∷ text) given h =
    let whole = take_digits-IsDigit (c ∷ text) h in
    let seen : is_blank c ≡ false = ground arith in rw (seen, whole) (ground arith)

stoll-minus : (text : List ℕ) → All IsDigit text → stoll (45 ∷ text) ≡ negative text
unfolding stoll skip_blanks signed
stoll-minus text h = rw (take_digits-IsDigit text h) refl

positive-number_of :
    (text : List ℕ)
    → text ≢ []
    → positive text
      ≡ (if ltb (number_of 0 text) (2 ^ 63) then ok (number_of 0 text) else throws out_of_range)
unfolding positive
positive-number_of [] given = absurd (given refl)
positive-number_of (c ∷ text) given = refl

negative-number_of :
    (text : List ℕ)
    → text ≢ []
    → number_of 0 text ≤ 2 ^ 63
    → negative text ≡ ok ((2 ^ 64 - number_of 0 text) % 2 ^ 64)
unfolding negative
negative-number_of [] given h = absurd (given refl)
negative-number_of (c ∷ text) given h = ground arith

stoll-uint64_to_string :
    (n : ℕ)
    → n < 2 ^ 64
    → stoll (uint64_to_string n) ≡ (if ltb n (2 ^ 63) then ok n else throws out_of_range)
unfolding uint64_to_string tenfold
stoll-uint64_to_string n h =
    stoll-IsDigit (digits 20 n) (digits-nonempty 19 n) (digits-IsDigit 20 n)
    ∙ positive-number_of (digits 20 n) (digits-nonempty 19 n)
    ∙ ap (λ m. if ltb m (2 ^ 63) then ok m else throws out_of_range)
        (number_of-digits 20 n (omega arith))

number_of-uint64_to_string : (n : ℕ) → n < 2 ^ 64 → number_of 0 (uint64_to_string n) ≡ n
unfolding uint64_to_string tenfold
number_of-uint64_to_string n h = number_of-digits 20 n (omega arith)

stoll-minus_uint64 :
    (m : ℕ) → m ≤ 2 ^ 63 → stoll (45 ∷ uint64_to_string m) ≡ ok ((2 ^ 64 - m) % 2 ^ 64)
unfolding uint64_to_string
stoll-minus_uint64 m h =
    let same = number_of-uint64_to_string m (omega arith) in
    stoll-minus (digits 20 m) (digits-IsDigit 20 m)
    ∙ negative-number_of (digits 20 m) (digits-nonempty 19 m) (omega (arith, same))
    ∙ ap (λ k. ok ((2 ^ 64 - k) % 2 ^ 64)) same

stoll-int64_to_string : (n : ℕ) → n < 2 ^ 64 → stoll (int64_to_string n) ≡ ok n
unfolding int64_to_string
stoll-int64_to_string n h = elim (Bool-cases (ltb n (2 ^ 63))) [
  | inl small ↦ rw small (stoll-uint64_to_string n h ∙ rw small refl)
  | inr large ↦
      rw large (stoll-minus_uint64 (2 ^ 64 - n) (ground arith) ∙ ap ok (ground (arith, large)))
]

-- `std::to_string` of an integer of the type
abbrev pub to_string : Integer → ℕ → List ℕ
to_string int8 n = int64_to_string (sign_extend 8 n)
to_string uint8 n = uint64_to_string n
to_string int16 n = int64_to_string (sign_extend 16 n)
to_string uint16 n = uint64_to_string n
to_string int32 n = int64_to_string (sign_extend 32 n)
to_string uint32 n = uint64_to_string n
to_string int64 n = int64_to_string n
to_string uint64 n = uint64_to_string n

module _ (n : ℕ) (i : Integer) where
  signed_back :
      (m : ℕ) → m < 2 ^ 64 → m % 2 ^ bits i ≡ n → convert (integral i) (int64_to_string m) ≡ ok n
  unfolding convert
  signed_back m h e = rw (stoll-int64_to_string m h) (ap ok e)

  unsigned_back : n < 2 ^ 63 → n % 2 ^ bits i ≡ n → convert (integral i) (uint64_to_string n) ≡ ok n
  unfolding convert
  unsigned_back h e = rw (stoll-uint64_to_string n (omega arith)) (ground (arith, e))

-- The decimal text of an integer is converted to this integer, for each integral type and each of its
-- values, negative ones included, but those of 2 ^ 63 and more of the unsigned type of 64 bits.
pub convert-to_string :
    (i : Integer) (n : ℕ)
    → n < 2 ^ bits i
    → (i ≡ uint64 → n < 2 ^ 63)
    → convert (integral i) (to_string i n) ≡ ok n
convert-to_string int8 n h g = signed_back n int8 (sign_extend 8 n) (ground arith) (ground arith)
convert-to_string uint8 n h g = unsigned_back n uint8 (omega arith) (omega arith)
convert-to_string int16 n h g = signed_back n int16 (sign_extend 16 n) (ground arith) (ground arith)
convert-to_string uint16 n h g = unsigned_back n uint16 (omega arith) (omega arith)
convert-to_string int32 n h g = signed_back n int32 (sign_extend 32 n) (ground arith) (ground arith)
convert-to_string uint32 n h g = unsigned_back n uint32 (omega arith) (omega arith)
convert-to_string int64 n h g = signed_back n int64 n h (omega arith)
convert-to_string uint64 n h g = unsigned_back n uint64 (g refl) (omega arith)

-- The text of each value of 2 ^ 63 and more of the unsigned type of 64 bits is refused with
-- std::out_of_range.
pub convert-to_string_large :
    (n : ℕ)
    → 2 ^ 63 ≤ n
    → n < 2 ^ 64
    → convert (integral uint64) (to_string uint64 n) ≡ throws out_of_range
unfolding convert
convert-to_string_large n h g = rw (stoll-uint64_to_string n g) (ground arith)
