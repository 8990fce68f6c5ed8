-- ===== src/Net/Http/OutputPack/Portions.antt =====
-- The portions of a body make up the data.
use mif.Prelude.{
  ltb, Bool-cases, Result, ok, length, take, drop, All, take-append-drop, length-take, ℕ, zero, suc,
  ◌-◌, ◌≤◌, ◌<◌, min, ◌≡◌, refl, sym, ap, ◌∙◌, inl, inr, true, false, Option, some, List, [], ◌∷◌,
  ◌++◌, flatten, append-nil, arith, drop-drop, drop-length,
}
use mathlib.Core.Path.{subst}
use mif.Net.Http.OutputPack.{
  Buffer, OutputPack, first_body, set_data, held, next_portion, get_next_portion, portions,
}

abbrev pub Fits : ℕ → Buffer → Type 0
Fits n b = length b ≤ n

-- What `portions` is to give: portions within the chunk size that make up some bytes
abbrev pub Writes : ℕ → Buffer → Option (Result (List Buffer)) → Type 0
Writes chunk bytes r =
    (ps : List Buffer) × (r ≡ some (ok ps)) × (flatten ps ≡ bytes) × All (Fits chunk) ps

portions-last :
    (fuel : ℕ) (p : OutputPack)
    → p.body.more ≡ false
    → portions (suc fuel) p ≡ some (ok (p.body.bytes ∷ []))
unfolding portions
portions-last fuel p h = rw (h, portions)

portions-more :
    (fuel : ℕ) (p : OutputPack) (ps : List Buffer)
    → p.body.more ≡ true
    → p.serializer ≡ true
    → portions fuel (next_portion p) ≡ some (ok ps)
    → portions (suc fuel) p ≡ some (ok (p.body.bytes ∷ ps))
unfolding portions get_next_portion
portions-more fuel p ps h s e = ground arith

portions-final :
    (fuel : ℕ) (p : OutputPack)
    → length p.body.bytes ≤ p.chunk_size
    → p.body.more ≡ false
    → drop p.position (held p) ≡ []
    → Writes p.chunk_size (p.body.bytes ++ drop p.position (held p)) (portions (suc fuel) p)
portions-final fuel p l done z = (
  p.body.bytes ∷ [],
  portions-last fuel p done,
  ap (λ (x : Buffer). p.body.bytes ++ x) (sym z),
  (l, tt),
)

-- What `next_portion` gives, in terms of the bytes from the position on
next_portion-rest :
    (p : OutputPack)
    → (next_portion p).body.bytes ++ drop (next_portion p).position (held (next_portion p))
      ≡ drop p.position (held p)
unfolding next_portion
next_portion-rest p =
    ap (λ (x : Buffer). take size rest ++ x) (sym (drop-drop p.position size (held p)))
    ∙ take-append-drop size rest
  where
    rest : Buffer
    rest = drop p.position (held p)

    size : ℕ
    size = min (length (held p) - p.position) p.chunk_size

next_portion-last :
    (p : OutputPack)
    → (next_portion p).body.more ≡ false
    → drop (next_portion p).position (held (next_portion p)) ≡ []
unfolding next_portion
next_portion-last p e = drop-length _ (held p) (ground arith)

next_portion-shrinks :
    (p : OutputPack)
    → 0 < p.chunk_size
    → (next_portion p).body.more ≡ true
    → length (held (next_portion p)) - (next_portion p).position < length (held p) - p.position
unfolding next_portion
next_portion-shrinks p c e = ground arith

next_portion-fits : (p : OutputPack) → length (next_portion p).body.bytes ≤ p.chunk_size
unfolding next_portion
next_portion-fits p = omega (
  arith,
  length-take (min (length (held p) - p.position) p.chunk_size) (drop p.position (held p)),
)

portions-step :
    (f : ℕ) (p : OutputPack)
    → p.serializer ≡ true
    → length p.body.bytes ≤ p.chunk_size
    → p.body.more ≡ true
    → Writes p.chunk_size (drop p.position (held p)) (portions f (next_portion p))
    → Writes p.chunk_size (p.body.bytes ++ drop p.position (held p)) (portions (suc f) p)
portions-step f p s l more (ps, e, made, small) = (
  p.body.bytes ∷ ps,
  portions-more f p ps more s e,
  ap (λ (x : Buffer). p.body.bytes ++ x) made,
  (l, small),
)

-- From a pack whose next portion begins at its position
portions-rest :
    (fuel : ℕ) (p : OutputPack)
    → 0 < p.chunk_size
    → p.serializer ≡ true
    → length p.body.bytes ≤ p.chunk_size
    → (p.body.more ≡ true → length (held p) - p.position < fuel)
    → (p.body.more ≡ false → drop p.position (held p) ≡ [])
    → Writes p.chunk_size (p.body.bytes ++ drop p.position (held p)) (portions (suc fuel) p)
unfolding next_portion
portions-rest zero p c s l h z = elim (Bool-cases p.body.more) [
  | inr done ↦ portions-final zero p l done (z done)
  | inl more ↦ absurd (omega (arith, h more))
]
portions-rest (suc f) p c s l h z = elim (Bool-cases p.body.more) [
  | inr done ↦ portions-final (suc f) p l done (z done)
  | inl more ↦ portions-step (suc f) p s l more (
      subst (λ (x : Buffer). Writes p.chunk_size x (portions (suc f) (next_portion p)))
        (next_portion-rest p)
        (portions-rest f (next_portion p) c s (next_portion-fits p)
          (λ e. omega (arith, next_portion-shrinks p c e, h more)) (next_portion-last p)))
]

chunked : ℕ → Buffer → OutputPack → OutputPack
chunked b bs p = record p {
  serializer = true;
  buffer = some (b ∷ bs);
  position = 0;
  body = record { bytes = []; more = true };
}

-- Whatever the size of the data, and for every chunk size but 0: the portions that are written are
-- the data, each of at most a chunk, and the writer comes to the last one.
pub portions-set_data :
    (bytes : Buffer) (p : OutputPack)
    → 0 < p.chunk_size
    → (ps : List Buffer) × (portions (suc (suc (length bytes))) (set_data (some bytes) p)
        ≡ some (ok ps))
      × (flatten ps ≡ bytes)
      × All (Fits p.chunk_size) ps
unfolding set_data first_body chunked
portions-set_data [] p c =
    ([] ∷ [], portions-last 1 (set_data (some []) p) refl, refl, (omega arith, tt))
portions-set_data (b ∷ bs) p c = elim (Bool-cases (ltb (length (b ∷ bs)) p.chunk_size)) [
  | inl small ↦ (
    (b ∷ bs) ∷ [],
    portions-last _ (set_data (some (b ∷ bs)) p) (rw small) ∙ rw small,
    append-nil (b ∷ bs),
    (ground arith, tt),
  )
  | inr large ↦
      rw (large, set_data)
        (portions-rest (suc (length (b ∷ bs))) (chunked b bs p) c refl (omega arith)
          (λ e. omega arith) (λ e. cc))
]
