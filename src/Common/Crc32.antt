-- ===== src/Common/Crc32.antt =====
-- include/mif/common/crc32.h: checksums by a table, of data and of literals. `std::uint32_t` is a
-- number below 2 ^ 32.
use mif.Prelude.{
  ltb, if◌then◌else◌, ◌==◌, get_elem?, ℕ, zero, suc, ◌+◌, ◌-◌, ◌*◌, ◌/◌, ◌%◌, ◌^◌, none, some, List,
  [], ◌∷◌, bytes_eq, nat_eq,
}
pub mod Bits
pub mod Bitwise
mod Tests

-- `^` on numbers of `width` bits, the lowest bit first
unfoldable pub xor : ℕ → ℕ → ℕ → ℕ
xor zero a b = 0
xor (suc width) a b = (a + b) % 2 + 2 * xor width (a / 2) (b / 2)

-- `0xedb88320`
abbrev polynomial : ℕ
polynomial = 3988292384

unfoldable pub shifted : ℕ → ℕ
shifted c = if c % 2 == 1 then xor 32 polynomial (c / 2) else c / 2

-- `CalcCrc32K` with `rounds` rounds to go
unfoldable pub calc_crc32_k : ℕ → ℕ → ℕ
calc_crc32_k zero c = c
calc_crc32_k (suc rounds) c = calc_crc32_k rounds (shifted c)

-- `CalcCrc32Table`, with `left` entries to go
unfoldable pub calc_crc32_table : ℕ → ℕ → List ℕ
calc_crc32_table zero n = []
calc_crc32_table (suc left) n = calc_crc32_k 8 n ∷ calc_crc32_table left (suc n)

-- `Crc32TableHolder::Table.m_data[index]`
unfoldable pub table_at : ℕ → ℕ
unfolding calc_crc32_table
table_at index = elim (get_elem? (calc_crc32_table 256 0) index) [ none ↦ 0 | some entry ↦ entry ]

-- The loop over the bytes
unfoldable pub crc_loop : ℕ → List ℕ → ℕ
crc_loop crc [] = crc
crc_loop crc (b ∷ bytes) = crc_loop (xor 32 (table_at (xor 32 crc b % 256)) (crc / 256)) bytes

unfoldable pub crc32 : List ℕ → ℕ
unfolding crc_loop
crc32 bytes = xor 32 (crc_loop (xor 32 0 (2 ^ 32 - 1)) bytes) (2 ^ 32 - 1)

-- A signed `char` in an operation with a `std::uint32_t`
unfoldable pub widened : ℕ → ℕ
widened b = if ltb b 128 then b else b + (2 ^ 32 - 256)

-- The template over the characters of a literal, its last zero left out
unfoldable pub crc_literal : List ℕ → ℕ → ℕ
crc_literal [] crc = xor 32 crc (2 ^ 32 - 1)
crc_literal (c ∷ str) crc =
    crc_literal str (xor 32 (crc / 256) (table_at (xor 32 crc (widened c) % 256)))

unfoldable pub crc32_literal : List ℕ → ℕ
unfolding crc_literal
crc32_literal str = crc_literal str (2 ^ 32 - 1)
