-- ===== src/Net/Framing/Stream.antt =====
-- The reader over the reads of a connection, however the bytes are cut.
use mif.Prelude.{
  length, All, length-append, All-append, All-append_right, ◌+◌, ◌^◌, ◌<◌, ◌≡◌, refl, sym, ap, ◌∙◌,
  ◌≢◌, inl, inr, Option, none, some, List, [], ◌∷◌, ◌++◌, flatten, append-nil, append_assoc, arith,
  dec_lt, List-cases,
}
use mif.Net.Framing.{
  Buffer, IsByte, from_big, process_data, header_size, Outcome, waits, posts, undefined, extract,
  on_data, feed, posted,
}
use mathlib.Core.Option.{some_inj}
use mathlib.Core.Option
use mif.Net.Framing.Lemmas.{from_big-append, length-process_data, extract-waits, extract_short}
use mif.Net.Framing.RoundTrip.{
  frames, from_big-process_data, on_data-process_data, extract-conserves,
}

-- The bytes of the frames of some payloads.
abbrev pub all_frames : List Buffer → Buffer
all_frames [] = []
all_frames (p ∷ ps) = process_data p ++ all_frames ps

-- What the first call of a defined run hands on, and the rest
posted-split :
    (o : Outcome) (outs : List Outcome) (ps : List Buffer)
    → posted (o ∷ outs) ≡ some ps
    → (rest : List Buffer) × (posted outs ≡ some rest)
      × (all_frames ps ≡ frames o ++ all_frames rest)
posted-split waits outs ps e = (ps, e, refl)
posted-split (posts p) outs ps e = first (posted outs) e
  where
    first :
        (found : Option (List Buffer))
        → Option.map (λ (qs : List Buffer). p ∷ qs) found ≡ some ps
        → (rest : List Buffer) × (found ≡ some rest)
          × (all_frames ps ≡ frames (posts p) ++ all_frames rest)
    first none e = cc
    first (some rest) e = (rest, refl, ap all_frames (sym (some_inj.0 e)))
posted-split undefined outs ps e = cc

-- Whatever bytes a peer sends, and however they are cut, as long as no header makes the behaviour of
-- the reader undefined: the frames of the payloads that are handed on, and then what is left in the
-- buffer, are the bytes that were in the buffer and those that came in. Nothing is lost, made up,
-- doubled or reordered.
pub feed-conserves :
    (st : Buffer) (cs ps : List Buffer)
    → All IsByte st
    → All (All IsByte) cs
    → posted (feed st cs).1 ≡ some ps
    → all_frames ps ++ (feed st cs).0 ≡ st ++ flatten cs
unfolding feed on_data
feed-conserves st [] ps h k e = rw (sym (some_inj.0 e)) (sym (append-nil st))
feed-conserves st (c ∷ cs) ps h k e =
    let all = All-append IsByte st c h k.0 in
    let left = (extract (st ++ c)).0 in
    let out = (extract (st ++ c)).1 in
    let last = (feed left cs).0 in
    let kept : frames out ++ left ≡ st ++ c = extract-conserves (st ++ c) all in
    let bytes = All-append_right IsByte (frames out) left (rw kept all) in
    let (rest, others, whole) = posted-split out (feed left cs).1 ps e in
    ap (λ (x : Buffer). x ++ last) whole
    ∙ append_assoc (frames out) (all_frames rest) last
    ∙ ap (λ (x : Buffer). frames out ++ x) (feed-conserves left cs rest bytes k.1 others)
    ∙ sym (append_assoc (frames out) left (flatten cs))
    ∙ ap (λ (x : Buffer). x ++ flatten cs) kept
    ∙ append_assoc st c (flatten cs)

-- A strict prefix of a frame is kept, and nothing is posted.
pub extract-prefix :
    (p xs ys : Buffer)
    → length p < 2 ^ 31
    → ys ≢ []
    → xs ++ ys ≡ process_data p
    → extract xs ≡ (xs, waits)
extract-prefix p xs ys h n e = elim (dec_lt (length xs) header_size) [
  | yes s ↦ extract_short xs s
  | no l ↦ extract-waits xs (rw (size l) h) (rw (size l) (shorter ys n (ap length e)))
]
  where
    size : ¬ (length xs < header_size) → from_big xs ≡ length p
    size l =
        sym (from_big-append xs ys (omega arith))
        ∙ ap from_big (e ∙ sym (append-nil (process_data p)))
        ∙ from_big-process_data p [] h

    shorter :
        (zs : Buffer)
        → zs ≢ []
        → length (xs ++ zs) ≡ length (process_data p)
        → length xs < length p + header_size
    shorter [] m k = absurd (m refl)
    shorter (z ∷ zs) m k = omega (arith, k, length-append xs (z ∷ zs), length-process_data p)

abbrev pub waits_only : List Buffer → List Outcome
waits_only [] = []
waits_only (c ∷ cs) = waits ∷ waits_only cs

feed-nothing : (cs : List Buffer) → flatten cs ≡ [] → feed [] cs ≡ ([], waits_only cs)
unfolding feed on_data
feed-nothing [] e = refl
feed-nothing ([] ∷ cs) e = rw (extract_short [] (omega arith), feed-nothing cs e)
feed-nothing ((x ∷ c) ∷ cs) e = cc

posted-waits_only : (cs : List Buffer) → posted (waits_only cs) ≡ some []
posted-waits_only [] = refl
posted-waits_only (c ∷ cs) = posted-waits_only cs

-- One frame of the writer, of a payload below 2 ^ 31 bytes, of which a part, not all of it, may be
-- in the buffer and the rest comes in any pieces: the payload is handed on, once, and the buffer
-- is empty at the end.
pub feed-fragments :
    (p st : Buffer) (cs : List Buffer)
    → length p < 2 ^ 31
    → st ++ flatten cs ≡ process_data p
    → flatten cs ≢ []
    → (posted (feed st cs).1 ≡ some (p ∷ [])) × ((feed st cs).0 ≡ [])
unfolding feed on_data
feed-fragments p st [] h e n = absurd (n refl)
feed-fragments p st (c ∷ cs) h e n = elim (List-cases (flatten cs)) [
  | inl z ↦
      rw (full z, feed-nothing cs z)
        (ap (Option.map (λ (x : List Buffer). p ∷ x)) (posted-waits_only cs), refl)
  | inr m ↦
      rw (extract-prefix p (st ++ c) (flatten cs) h m whole)
        (feed-fragments p (st ++ c) cs h whole m)
]
  where
    whole : (st ++ c) ++ flatten cs ≡ process_data p
    whole = append_assoc st c (flatten cs) ∙ e

    full : flatten cs ≡ [] → extract (st ++ c) ≡ ([], posts p)
    full z =
        ap extract
          (sym (append-nil (st ++ c)) ∙ (rw z at whole) ∙ sym (append-nil (process_data p)))
        ∙ on_data-process_data p [] h
