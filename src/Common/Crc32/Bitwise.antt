-- ===== src/Common/Crc32/Bitwise.antt =====
-- The checksum by the table, and the one by single bits.
use mif.Prelude.{
  Bool-cases, ◌==◌, get_elem?, All, ℕ, zero, suc, ◌+◌, ◌-◌, ◌*◌, ◌/◌, ◌%◌, ◌^◌, ◌<◌, ◌≡◌, refl, sym,
  ap, ◌∙◌, inl, inr, some, List, [], ◌∷◌, arith, bytes_eq, nat_eq,
}
use mif.Common.Crc32.{
  xor, polynomial, shifted, calc_crc32_k, calc_crc32_table, table_at, crc_loop, crc32, widened,
  crc_literal, crc32_literal,
}
use mif.Common.Crc32.Bits.{
  shift, xor_comm, xor_assoc, xor-lt, xor-shift, xor_low, xor_high, xor_byte, xor_low_byte,
}

-- The definition of the checksum: the remainder by the polynomial, a bit at a time
unfoldable pub remainder : ℕ → List ℕ → ℕ
remainder crc [] = crc
remainder crc (b ∷ bytes) = remainder (calc_crc32_k 8 (xor 32 crc b)) bytes

abbrev IsByte : ℕ → Type 0
IsByte b = b < 256

-- A round works on the lowest bit; what stands above the bits of all rounds is only moved.
shifted-xor :
    (a b : ℕ) → a < 2 ^ 32 → 2 * b < 2 ^ 32 → (shifted (xor 32 a (2 * b)) ≡ xor 32 (shifted a) b)
unfolding shifted
shifted-xor a b h g = elim (Bool-cases (a % 2 == 1)) [
  | inl odd ↦ rw (xor_low a b, odd, xor_high a b h g) (sym (xor_assoc 32 polynomial (a / 2) b))
  | inr even ↦ rw (xor_low a b, even, xor_high a b h g) refl
]

shifted-lt : (a : ℕ) → a < 2 ^ 32 → shifted a < 2 ^ 32
unfolding shifted shift
shifted-lt a h = ground (arith, xor-lt 32 polynomial (a / 2))

calc_crc32_k-xor :
    (k a b : ℕ)
    → a < 2 ^ 32
    → shift k b < 2 ^ 32
    → calc_crc32_k k (xor 32 a (shift k b)) ≡ xor 32 (calc_crc32_k k a) b
unfolding calc_crc32_k shift
calc_crc32_k-xor zero a b h g = refl
calc_crc32_k-xor (suc k) a b h g =
    rw (shifted-xor a (shift k b) h g)
      (calc_crc32_k-xor k (shifted a) b (shifted-lt a h) (omega arith))

-- Eight rounds, by the table
calc_crc32_k-split :
    (c : ℕ) → c < 2 ^ 32 → calc_crc32_k 8 c ≡ xor 32 (calc_crc32_k 8 (c % 256)) (c / 256)
unfolding shift
calc_crc32_k-split c h =
    let parts : c ≡ xor 32 (c % 256) (shift 8 (c / 256)) =
      omega (arith, xor-shift 8 32 (c % 256) (c / 256) (omega arith) (omega arith)) in
    ap (calc_crc32_k 8) parts ∙ calc_crc32_k-xor 8 (c % 256) (c / 256) (omega arith) (omega arith)

get_elem?-calc_crc32_table :
    (left n index : ℕ)
    → index < left
    → get_elem? (calc_crc32_table left n) index ≡ some (calc_crc32_k 8 (n + index))
unfolding calc_crc32_table
get_elem?-calc_crc32_table zero n index h = absurd (omega arith)
get_elem?-calc_crc32_table (suc left) n zero h = ap (λ m. some (calc_crc32_k 8 m)) (omega arith)
get_elem?-calc_crc32_table (suc left) n (suc index) h =
    get_elem?-calc_crc32_table left (suc n) index (omega arith)
    ∙ ap (λ m. some (calc_crc32_k 8 m)) (omega arith)

table_at-lt : (index : ℕ) → index < 256 → table_at index ≡ calc_crc32_k 8 index
unfolding table_at
table_at-lt index h =
    rw (get_elem?-calc_crc32_table 256 0 index h) (ap (calc_crc32_k 8) (omega arith))

xor-table_at :
    (crc b : ℕ)
    → crc < 2 ^ 32
    → b < 256
    → xor 32 (table_at (xor 32 crc b % 256)) (crc / 256) ≡ calc_crc32_k 8 (xor 32 crc b)
unfolding shift
xor-table_at crc b h g =
    rw (table_at-lt (xor 32 crc b % 256) (omega arith), sym (xor_byte crc b h g))
      (sym (calc_crc32_k-split (xor 32 crc b) (xor-lt 32 crc b)))

crc_loop-remainder :
    (crc : ℕ) (bytes : List ℕ)
    → crc < 2 ^ 32
    → All IsByte bytes
    → crc_loop crc bytes ≡ remainder crc bytes
unfolding crc_loop remainder shift
crc_loop-remainder crc [] h g = refl
crc_loop-remainder crc (b ∷ bytes) h g =
    let next = xor 32 (table_at (xor 32 crc b % 256)) (crc / 256) in
    crc_loop-remainder next bytes (xor-lt 32 (table_at (xor 32 crc b % 256)) (crc / 256)) g.1
    ∙ ap (λ c. remainder c bytes) (xor-table_at crc b h g.0)

-- The checksum by the table is the CRC of the polynomial, taken a bit at a time, of all bytes in their
-- order, with the register all ones at the start and inverted at the end.
pub crc32-remainder :
    (bytes : List ℕ)
    → All IsByte bytes
    → crc32 bytes ≡ xor 32 (remainder (2 ^ 32 - 1) bytes) (2 ^ 32 - 1)
unfolding crc32 xor
crc32-remainder bytes h =
    ap (λ c. xor 32 c (2 ^ 32 - 1)) (crc_loop-remainder (2 ^ 32 - 1) bytes (omega arith) h)

crc_literal-crc_loop :
    (str : List ℕ) (crc : ℕ)
    → All IsByte str
    → crc_literal str crc ≡ xor 32 (crc_loop crc str) (2 ^ 32 - 1)
unfolding crc_literal crc_loop widened
crc_literal-crc_loop [] crc h = refl
crc_literal-crc_loop (c ∷ str) crc h =
    rw
      (
        xor_low_byte crc (widened c) c (ground arith),
        xor_comm 32 (crc / 256) (table_at (xor 32 crc c % 256)),
      )
      (crc_literal-crc_loop str (xor 32 (table_at (xor 32 crc c % 256)) (crc / 256)) h.1)

-- The checksum that the compiler takes of a literal is the one that is taken of its characters at run
-- time, though it takes them as signed numbers and the other takes them as unsigned ones.
pub crc32_literal-crc32 : (str : List ℕ) → All IsByte str → crc32_literal str ≡ crc32 str
unfolding crc32_literal crc32 xor
crc32_literal-crc32 str h = crc_literal-crc_loop str (2 ^ 32 - 1) h
