-- ===== src/Common/Crc32/Tests.antt =====
-- The checksum of "123456789", and the theorems at it and at a character that is not of ASCII.
use mif.Prelude.{ℕ, ◌-◌, ◌^◌, ◌≡◌, refl, List, [], ◌∷◌, arith}
use mif.Common.Crc32.{
  xor, crc32, crc32_literal, crc_loop, table_at, calc_crc32_table, calc_crc32_k, shifted,
}
use mif.Common.Crc32.Bitwise.{remainder, crc32-remainder, crc32_literal-crc32}

abbrev nine_digits : List ℕ
nine_digits = 49 ∷ 50 ∷ 51 ∷ 52 ∷ 53 ∷ 54 ∷ 55 ∷ 56 ∷ 57 ∷ []

crc32-nine_digits : crc32 nine_digits ≡ 3421780262
unfolding crc32 xor crc_loop table_at calc_crc32_table calc_crc32_k shifted
crc32-nine_digits = refl

crc32-remainder_example :
    crc32 nine_digits ≡ xor 32 (remainder (2 ^ 32 - 1) nine_digits) (2 ^ 32 - 1)
crc32-remainder_example = crc32-remainder nine_digits (ground arith)

crc32_literal-crc32_example : crc32_literal (77 ∷ 195 ∷ 164 ∷ []) ≡ crc32 (77 ∷ 195 ∷ 164 ∷ [])
crc32_literal-crc32_example = crc32_literal-crc32 (77 ∷ 195 ∷ 164 ∷ []) (ground arith)
