-- ===== src/Net/Framing/Tests.antt =====
-- The framing theorems at concrete inputs.
use mif.Prelude.{◌≡◌, refl, ap, some, List, [], ◌∷◌, ◌++◌, flatten, arith}
use mif.Net.Framing.{
  Buffer, from_big, process_data, waits, posts, extract, frame_end, on_data, feed, posted,
}
use mif.Net.Framing.Stream.{all_frames, feed-conserves, feed-fragments}
use mif.Net.Framing.Headers.{feed_coalesced, feed-IsNegative}

-- "hi" and "you"
abbrev hi : Buffer
hi = b'h' ∷ b'i' ∷ []

abbrev you : Buffer
you = b'y' ∷ b'o' ∷ b'u' ∷ []

-- The frame of "hi" in three reads, the last with a byte of the next frame
abbrev pieces : List Buffer
pieces = (0 ∷ 0 ∷ []) ∷ (0 ∷ 2 ∷ b'h' ∷ []) ∷ (b'i' ∷ 0 ∷ []) ∷ []

-- The frame of "hi" in three reads
abbrev cuts : List Buffer
cuts = (0 ∷ []) ∷ (0 ∷ 0 ∷ 2 ∷ b'h' ∷ []) ∷ (b'i' ∷ []) ∷ []

-- A header of -1000
abbrev negative : Buffer
negative = 255 ∷ 255 ∷ 252 ∷ 24 ∷ []

process_data-hi : process_data hi ≡ 0 ∷ 0 ∷ 0 ∷ 2 ∷ hi
unfolding process_data
process_data-hi = refl

feed-pieces : feed [] pieces ≡ (0 ∷ [], waits ∷ waits ∷ posts hi ∷ [])
unfolding feed on_data extract from_big frame_end
feed-pieces = refl

feed-conserves_example : all_frames (hi ∷ []) ++ (feed [] pieces).0 ≡ [] ++ flatten pieces
feed-conserves_example =
    feed-conserves [] pieces (hi ∷ []) (omega arith) (omega arith)
      (ap (λ run. posted run.1) feed-pieces)

feed-fragments_example : (posted (feed [] cuts).1 ≡ some (hi ∷ [])) × ((feed [] cuts).0 ≡ [])
unfolding process_data
feed-fragments_example = feed-fragments hi [] cuts (omega arith) refl (λ e. cc)

feed_coalesced_example :
    feed [] (all_frames (hi ∷ you ∷ []) ∷ []) ≡ (all_frames (you ∷ []), posts hi ∷ [])
feed_coalesced_example = feed_coalesced hi (you ∷ []) (omega arith)

feed-IsNegative_example :
    feed negative (hi ∷ you ∷ []) ≡ (negative ++ flatten (hi ∷ you ∷ []), waits ∷ waits ∷ [])
unfolding from_big
feed-IsNegative_example =
    feed-IsNegative negative (hi ∷ you ∷ []) (omega arith) (omega arith) (omega arith)
