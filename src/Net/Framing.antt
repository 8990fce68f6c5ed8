-- ===== src/Net/Framing.antt =====
-- The length-prefixed frames of src/mif/net/clients/frame_writer.cpp and frame_reader.cpp.
-- A byte is a number below 256, an `int32_t` its bit pattern, a number below 2 ^ 32.
pub mod Lemmas
pub mod RoundTrip
pub mod Stream
pub mod Headers
mod Tests
use mathlib.Core.Option
use mif.Prelude.{
  ltb, if◌then◌else◌, length, take, drop, ℕ, ◌+◌, ◌-◌, ◌*◌, ◌/◌, ◌%◌, ◌^◌, ◌<◌, Option, none, some,
  List, [], ◌∷◌, ◌++◌, map,
}

abbrev pub Buffer : Type 0
Buffer = List ℕ

abbrev pub IsByte : ℕ → Type 0
IsByte b = b < 256

-- `sizeof(frameBytes)`
abbrev pub header_size : ℕ
header_size = 4

-- `static_cast<std::int32_t>(size)`, its bit pattern
abbrev pub to_int32 : ℕ → ℕ
to_int32 size = size % 2 ^ 32

-- `native_to_big_inplace`, and the bytes of the number in memory
unfoldable pub to_big : ℕ → Buffer
to_big w = (w / 2 ^ 24 % 256) ∷ (w / 2 ^ 16 % 256) ∷ (w / 2 ^ 8 % 256) ∷ (w % 256) ∷ []

-- The first four bytes, `big_to_native_inplace`d; 0 where there are fewer, which is not reached.
pub from_big : Buffer → ℕ
from_big (a ∷ b ∷ c ∷ d ∷ rest) = a * 2 ^ 24 + b * 2 ^ 16 + c * 2 ^ 8 + d
from_big _ = 0

-- `FrameWriter::ProcessData`: what it posts.
unfoldable pub process_data : Buffer → Buffer
unfolding to_big
process_data buffer = to_big (to_int32 (length buffer)) ++ buffer

-- `frameBytes + sizeof(frameBytes)` as a `size_t`: the `int32_t` is extended by its sign.
pub frame_end : ℕ → ℕ
frame_end w =
    if ltb w (2 ^ 31) then w + header_size else (w + 2 ^ 64 - 2 ^ 32 + header_size) % 2 ^ 64

-- What a call of `OnData` does besides its change of `m_buffer`. A range whose end stands before
-- its begin is undefined behaviour: the buffer that `extract` gives with it has no meaning.
pub data Outcome : Type 0 where
  waits : Outcome
  posts : Buffer → Outcome
  undefined : Outcome

-- `FrameReader::Impl::OnData` once `m_buffer` holds the old and the new bytes.
pub extract : Buffer → Buffer × Outcome
extract buf =
    if ltb (length buf) header_size
    then (buf, waits)
    else (if ltb (length buf) (frame_end (from_big buf))
        then (buf, waits)
        else (if ltb (from_big buf) (2 ^ 31)
            then (
              drop (from_big buf) (drop header_size buf),
              posts (take (from_big buf) (drop header_size buf)),
            )
            else (buf, undefined)))

-- `OnData(buffer)` with `m_buffer`: the new bytes go behind the old ones (a swap if there are none).
pub on_data : Buffer → Buffer → Buffer × Outcome
on_data m_buffer buffer = extract (m_buffer ++ buffer)

-- Successive reads of a connection: what is left in `m_buffer`, and what each call did.
unfoldable pub feed : Buffer → List Buffer → Buffer × List Outcome
feed m_buffer [] = (m_buffer, [])
feed m_buffer (c ∷ cs) =
    let (left, out) = on_data m_buffer c in let (last, outs) = feed left cs in (last, out ∷ outs)

-- What the calls hand to the next client, in order; none where one of them is undefined: of such a
-- run nothing can be said.
abbrev pub posted : List Outcome → Option (List Buffer)
posted [] = some []
posted (waits ∷ outs) = posted outs
posted (posts p ∷ outs) = Option.map (λ (ps : List Buffer). p ∷ ps) (posted outs)
posted (undefined ∷ outs) = none
