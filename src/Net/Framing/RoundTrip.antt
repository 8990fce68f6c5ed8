-- ===== src/Net/Framing/RoundTrip.antt =====
-- The reader against the writer, for one call of `OnData`.
use mif.Prelude.{
  ltb, Bool-cases, length, take, drop, All, take-append-drop, take-append_left, drop-append_left, ℕ,
  ◌+◌, ◌^◌, ◌≤◌, ◌<◌, ◌≡◌, refl, ap, ◌∙◌, ◌⊎◌, inl, inr, ◌||◌, [], ◌∷◌, ◌++◌, append_assoc, arith,
  dec_lt, length_laws,
}
use mif.Net.Framing.{
  Buffer, IsByte, to_big, from_big, to_int32, process_data, frame_end, header_size, Outcome, waits,
  posts, undefined, extract, on_data,
}
use mif.Net.Framing.Lemmas.{from_big-to_big, to_big-from_big, extract-posts}

pub from_big-process_data :
    (p rest : Buffer) → length p < 2 ^ 31 → from_big (process_data p ++ rest) ≡ length p
unfolding process_data
from_big-process_data p rest h =
    rw
      (
        append_assoc (to_big (to_int32 (length p))) p rest,
        from_big-to_big (to_int32 (length p)) (p ++ rest) (omega arith),
      )
      (omega arith)

-- A frame of the writer, of a payload below 2 ^ 31 bytes, with anything behind it, that comes to an
-- empty buffer: the reader posts the payload and keeps the rest.
pub on_data-process_data :
    (p rest : Buffer) → length p < 2 ^ 31 → on_data [] (process_data p ++ rest) ≡ (rest, posts p)
unfolding on_data process_data to_big
on_data-process_data p rest h =
    extract-posts (process_data p ++ rest) (omega arith) (rw (from_big-process_data p rest h) h)
      (rw (from_big-process_data p rest h) (grind length_laws))
    ∙ rw (from_big-process_data p rest h, take-append_left, drop-append_left)

-- The frames of what a call posts.
abbrev pub frames : Outcome → Buffer
frames waits = []
frames (posts p) = process_data p
frames undefined = []

process_data-take :
    (w : ℕ) (rest : Buffer)
    → w < 2 ^ 32
    → w ≤ length rest
    → process_data (take w rest) ++ drop w rest ≡ to_big w ++ rest
unfolding process_data
process_data-take w rest h l =
    rw (e, append_assoc (to_big w) (take w rest) (drop w rest), take-append-drop w rest)
  where
    e : to_int32 (length (take w rest)) ≡ w
    e = grind length_laws

extract_keeps :
    (buf : Buffer)
    → ((extract buf ≡ (buf, waits)) ⊎ (extract buf ≡ (buf, undefined)))
      ⊎ ((from_big buf < 2 ^ 31) × (from_big buf + header_size ≤ length buf))
unfolding extract frame_end
extract_keeps buf = elim (dec_lt (from_big buf) (2 ^ 31)) [
  | yes h ↦ elim (dec_lt (length buf) (from_big buf + header_size)) [
    | yes k ↦ inl (inl (ground arith))
    | no k ↦ inr (h, omega arith)
  ]
  | no h ↦
      inl
        (elim (Bool-cases
          (ltb (length buf) header_size || ltb (length buf) (frame_end (from_big buf)))) [
            | inl s ↦ inl (ground arith)
            | inr s ↦ inr (ground arith)
          ])
]

-- What is taken out of the buffer and what stays in it are the bytes that were in it.
pub extract-conserves :
    (buf : Buffer) → All IsByte buf → frames (extract buf).1 ++ (extract buf).0 ≡ buf
unfolding extract
extract-conserves [] h = refl
extract-conserves (a ∷ []) h = refl
extract-conserves (a ∷ b ∷ []) h = refl
extract-conserves (a ∷ b ∷ c ∷ []) h = refl
extract-conserves (a ∷ b ∷ c ∷ d ∷ rest) h = elim (extract_keeps (a ∷ b ∷ c ∷ d ∷ rest)) [
  | inl (inl e) ↦ rw e
  | inl (inr e) ↦ rw e
  | inr (k, l) ↦ rw (extract-posts (a ∷ b ∷ c ∷ d ∷ rest) (omega arith) k l) (
      process_data-take (from_big (a ∷ b ∷ c ∷ d ∷ rest)) rest (omega arith) (omega arith)
      ∙ ap (λ (x : Buffer). x ++ rest) (to_big-from_big a b c d rest h.0 h.1.0 h.1.1.0 h.1.1.1.0))
]
