-- ===== src/Common/Crc32/Bits.antt =====
-- Laws of the exclusive or on numbers of a width.
use mif.Prelude.{ℕ, zero, suc, ◌+◌, ◌*◌, ◌/◌, ◌%◌, ◌^◌, ◌<◌, ◌≡◌, refl, sym, ap, ◌∙◌, arith}
use mif.Common.Crc32.{xor}

-- `b << k`
unfoldable pub shift : ℕ → ℕ → ℕ
shift zero b = b
shift (suc k) b = 2 * shift k b

pub xor_comm : (w a b : ℕ) → xor w a b ≡ xor w b a
unfolding xor
xor_comm zero a b = refl
xor_comm (suc w) a b = omega (arith, xor_comm w (a / 2) (b / 2))

pub half : (digit x : ℕ) → digit < 2 → (digit + 2 * x) / 2 ≡ x
half digit x h = omega arith

pub xor_assoc : (w a b c : ℕ) → xor w (xor w a b) c ≡ xor w a (xor w b c)
unfolding xor
xor_assoc zero a b c = refl
xor_assoc (suc w) a b c =
    rw
      (
        half ((a + b) % 2) (xor w (a / 2) (b / 2)) (omega arith),
        half ((b + c) % 2) (xor w (b / 2) (c / 2)) (omega arith),
        xor_assoc w (a / 2) (b / 2) (c / 2),
      )
      (omega arith)

pub xor-lt : (w a b : ℕ) → xor w a b < shift w 1
unfolding xor shift
xor-lt zero a b = omega arith
xor-lt (suc w) a b = omega (arith, xor-lt w (a / 2) (b / 2))

-- A bit more changes nothing for numbers without it.
pub xor-suc : (w a b : ℕ) → a < shift w 1 → b < shift w 1 → xor (suc w) a b ≡ xor w a b
unfolding xor shift
xor-suc zero a b h g = omega arith
xor-suc (suc w) a b h g = omega (arith, xor-suc w (a / 2) (b / 2) (omega arith) (omega arith))

pub xor_zero : (w a : ℕ) → a < shift w 1 → xor w a 0 ≡ a
unfolding xor shift
xor_zero zero a h = omega arith
xor_zero (suc w) a h = omega (arith, xor_zero w (a / 2) (omega arith))

-- Numbers without a common bit
pub xor-shift :
    (k w a b : ℕ) → a < shift k 1 → a + shift k b < shift w 1 → xor w a (shift k b) ≡ a + shift k b
unfolding xor shift
xor-shift k zero a b h g = omega arith
xor-shift zero (suc w) zero b h g =
    omega (arith, xor_comm (suc w) 0 b, xor_zero (suc w) b (omega arith))
xor-shift zero (suc w) (suc a) b h g = omega arith
xor-shift (suc k) (suc w) a b h g =
    let moved : (2 * shift k b) / 2 ≡ shift k b = omega arith in
    rw moved (omega (arith, xor-shift k w (a / 2) b (omega arith) (omega arith)))

-- The lowest bit, and the others, of numbers of 32 bits of which the second is even
pub xor_low : (a b : ℕ) → xor 32 a (2 * b) % 2 ≡ a % 2
unfolding xor
xor_low a b = omega arith

xor-half : (w a b : ℕ) → xor (suc w) a b / 2 ≡ xor w (a / 2) (b / 2)
unfolding xor
xor-half w a b = half ((a + b) % 2) (xor w (a / 2) (b / 2)) (omega arith)

pub xor_high : (a b : ℕ) → a < 2 ^ 32 → 2 * b < 2 ^ 32 → xor 32 a (2 * b) / 2 ≡ xor 32 (a / 2) b
unfolding shift
xor_high a b h g =
    let whole : (2 * b) / 2 ≡ b = omega arith in
    xor-half 31 a (2 * b)
    ∙ ap (xor 31 (a / 2)) whole
    ∙ sym (xor-suc 31 (a / 2) b (omega arith) (omega arith))

-- The bits above the first ones, and the first ones
unfoldable above : ℕ → ℕ → ℕ
above zero x = x
above (suc k) x = above k (x / 2)

unfoldable below : ℕ → ℕ → ℕ
below zero x = 0
below (suc k) x = x % 2 + 2 * below k (x / 2)

above-xor : (k w a b : ℕ) → a < shift w 1 → b < shift k 1 → above k (xor w a b) ≡ above k a
unfolding above xor shift
above-xor zero w a zero h g = xor_zero w a h
above-xor zero w a (suc b) h g = absurd (omega arith)
above-xor (suc k) zero a b h g = let nothing : 0 ≡ a = omega arith in ap (above (suc k)) nothing
above-xor (suc k) (suc w) a b h g =
    ap (above k) (xor-half w a b) ∙ above-xor k w (a / 2) (b / 2) (omega arith) (omega arith)

below-xor : (k w a b c : ℕ) → below k b ≡ below k c → below k (xor w a b) ≡ below k (xor w a c)
unfolding below xor
below-xor zero w a b c e = refl
below-xor (suc k) zero a b c e = refl
below-xor (suc k) (suc w) a b c e =
    let rest = below-xor k w (a / 2) (b / 2) (c / 2) (omega arith) in
    rw (xor-half w a b, xor-half w a c) (omega (arith, rest))

pub xor_byte : (a b : ℕ) → a < 2 ^ 32 → b < 256 → xor 32 a b / 256 ≡ a / 256
unfolding above shift
xor_byte a b h g = omega (arith, above-xor 8 32 a b h g)

pub xor_low_byte : (a b c : ℕ) → b % 256 ≡ c % 256 → xor 32 a b % 256 ≡ xor 32 a c % 256
unfolding below
xor_low_byte a b c e = omega (arith, below-xor 8 32 a b c (omega arith))
