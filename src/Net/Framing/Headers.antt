-- ===== src/Net/Framing/Headers.antt =====
-- What the reader makes of several frames in one read, and of a header that is no length.
use mif.Prelude.{
  ltb, if◌then◌else◌, length, ◌-◌, ◌^◌, ◌≤◌, ◌<◌, ◌≡◌, refl, sym, ap, ◌∙◌, List, [], ◌∷◌, ◌++◌,
  flatten, append-nil, append_assoc, arith, length_laws,
}
use mif.Net.Framing.{
  Buffer, from_big, header_size, waits, posts, undefined, extract, on_data, feed, frame_end,
}
use mif.Net.Framing.Lemmas.{from_big-append}
use mif.Net.Framing.RoundTrip.{on_data-process_data}
use mif.Net.Framing.Stream.{all_frames, waits_only}

-- One read, to an empty buffer, that holds the frames of several payloads, the first of them below
-- 2 ^ 31 bytes, hands on the first payload only: the other frames stay in the buffer.
pub feed_coalesced :
    (p : Buffer) (ps : List Buffer)
    → length p < 2 ^ 31
    → feed [] (all_frames (p ∷ ps) ∷ []) ≡ (all_frames ps, posts p ∷ [])
unfolding feed
feed_coalesced p ps h = rw (on_data-process_data p (all_frames ps) h)

-- A header of a negative length. From -4 to -1 the call is undefined.
abbrev pub IsNegative : Buffer → Type 0
IsNegative buf = (header_size ≤ length buf) × (2 ^ 31 ≤ from_big buf) × (from_big buf < 2 ^ 32)

extract-IsNegative :
    (buf : Buffer)
    → IsNegative buf
    → length buf < 2 ^ 63
    → extract buf ≡ (buf, (if ltb (from_big buf) (2 ^ 32 - header_size) then waits else undefined))
unfolding extract frame_end
extract-IsNegative buf h l = ground arith

-- Once the buffer begins with a header whose length is negative and less than -4, the reader only
-- waits, whatever the peer sends, as long as the buffer and all that comes are below 2 ^ 63 bytes:
-- every byte is kept, nothing is handed on, and no call is undefined.
pub feed-IsNegative :
    (st : Buffer) (cs : List Buffer)
    → IsNegative st
    → from_big st < 2 ^ 32 - header_size
    → length (st ++ flatten cs) < 2 ^ 63
    → feed st cs ≡ (st ++ flatten cs, waits_only cs)
unfolding feed on_data
feed-IsNegative st [] h low l = ap (λ (x : Buffer). (x, [])) (sym (append-nil st))
feed-IsNegative st (c ∷ cs) h low l =
    let same = from_big-append st c h.0 in
    let bad : IsNegative (st ++ c) = rw same (grind length_laws, h.1, h.2) in
    let below : from_big (st ++ c) < 2 ^ 32 - header_size = rw same low in
    let bound : length ((st ++ c) ++ flatten cs) < 2 ^ 63 = rw (append_assoc st c (flatten cs)) l in
    let stuck : extract (st ++ c) ≡ (st ++ c, waits) =
      extract-IsNegative (st ++ c) bad (grind length_laws) ∙ ground arith in
    rw (stuck, feed-IsNegative (st ++ c) cs bad below bound, append_assoc st c (flatten cs)) refl
