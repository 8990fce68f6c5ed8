-- ===== src/Net/Framing/Lemmas.antt =====
-- Facts on the header of a frame.
use mif.Prelude.{length, take, drop, ℕ, ◌+◌, ◌^◌, ◌≤◌, ◌<◌, ◌≡◌, refl, [], ◌∷◌, ◌++◌, arith}
use mif.Net.Framing.{
  process_data, Buffer, IsByte, to_big, from_big, frame_end, header_size, waits, posts, extract,
}

pub from_big-to_big : (w : ℕ) (rest : Buffer) → w < 2 ^ 32 → from_big (to_big w ++ rest) ≡ w
unfolding from_big to_big
from_big-to_big w rest h = omega arith

pub length-to_big : (w : ℕ) → length (to_big w) ≡ 4
unfolding to_big
length-to_big w = refl

-- A header of bytes is the one that its number is written as.
pub to_big-from_big :
    (a b c d : ℕ) (rest : Buffer)
    → IsByte a
    → IsByte b
    → IsByte c
    → IsByte d
    → to_big (from_big (a ∷ b ∷ c ∷ d ∷ rest)) ≡ a ∷ b ∷ c ∷ d ∷ []
unfolding from_big to_big
to_big-from_big a b c d rest ha hb hc hd = ground arith

pub extract-posts :
    (buf : Buffer)
    → header_size ≤ length buf
    → from_big buf < 2 ^ 31
    → from_big buf + header_size ≤ length buf
    → extract buf ≡ (
      drop (from_big buf) (drop header_size buf),
      posts (take (from_big buf) (drop header_size buf)),
    )
unfolding extract frame_end
extract-posts buf h k l = ground arith

pub extract-waits :
    (buf : Buffer)
    → from_big buf < 2 ^ 31
    → length buf < from_big buf + header_size
    → extract buf ≡ (buf, waits)
unfolding extract frame_end
extract-waits buf h l = ground arith

pub extract_short : (buf : Buffer) → length buf < header_size → extract buf ≡ (buf, waits)
unfolding extract
extract_short buf h = ground arith

pub from_big-append : (xs ys : Buffer) → header_size ≤ length xs → from_big (xs ++ ys) ≡ from_big xs
unfolding from_big
from_big-append (a ∷ b ∷ c ∷ d ∷ rest) ys h = refl
from_big-append [] ys h = absurd (omega arith)
from_big-append (a ∷ []) ys h = absurd (omega arith)
from_big-append (a ∷ b ∷ []) ys h = absurd (omega arith)
from_big-append (a ∷ b ∷ c ∷ []) ys h = absurd (omega arith)

pub length-process_data : (p : Buffer) → length (process_data p) ≡ length p + header_size
unfolding process_data to_big
length-process_data p = omega arith
