-- ===== src/Net/Http/ParamPack/Sets.antt =====
-- Containers as the parameters of a request.
use mif.Prelude.{
  Bool-cases, ◌==◌, ok, ℕ, ◌≡◌, refl, ap, ◌∙◌, inl, inr, Bool, true, false, ◌||◌, List, [], ◌∷◌,
  arith, bytes_eq, nat_eq,
}
use mif.Net.Http.ParamPack.{string, sequence, split, less, emplace, set_of, convert_all, convert}

-- Each string less than the next one
abbrev IsBefore : List ℕ → List (List ℕ) → Type 0
IsBefore x [] = Unit
IsBefore x (y ∷ ys) = less x y ≡ true

abbrev pub IsAscending : List (List ℕ) → Type 0
IsAscending [] = Unit
IsAscending (x ∷ xs) = IsBefore x xs × IsAscending xs

unfoldable pub contains : List ℕ → List (List ℕ) → Bool
contains q [] = false
contains q (x ∷ xs) = q == x || contains q xs

emplace-IsBefore :
    (x y : List ℕ) (ys : List (List ℕ))
    → less y x ≡ true
    → IsBefore y ys
    → IsBefore y (emplace x ys)
unfolding emplace
emplace-IsBefore x y [] h b = h
emplace-IsBefore x y (z ∷ zs) h b = elim (Bool-cases (less x z)) [
  | inl first ↦ rw first h
  | inr later ↦ elim (Bool-cases (less z x)) [
    | inl after ↦ rw (later, after) b
    | inr same ↦ rw (later, same) b
  ]
]

emplace-IsAscending :
    (x : List ℕ) (ys : List (List ℕ)) → IsAscending ys → IsAscending (emplace x ys)
unfolding emplace
emplace-IsAscending x [] h = (tt, tt)
emplace-IsAscending x (y ∷ ys) h = elim (Bool-cases (less x y)) [
  | inl first ↦ rw first (first, h)
  | inr later ↦ elim (Bool-cases (less y x)) [
    | inl after ↦
        rw (later, after) (emplace-IsBefore x y ys after h.0, emplace-IsAscending x ys h.1)
    | inr same ↦ rw (later, same) h
  ]
]

-- Two strings of which none is less are the same.
less-same : (xs ys : List ℕ) → less xs ys ≡ false → less ys xs ≡ false → xs ≡ ys
unfolding less
less-same [] [] h g = refl
less-same [] (y ∷ ys) h g = cc
less-same (x ∷ xs) [] h g = cc
less-same (x ∷ xs) (y ∷ ys) h g =
    let head : x ≡ y = ground arith in
    let tail : xs ≡ ys = less-same xs ys (ground arith) (ground arith) in rw (head, tail) refl

contains-emplace :
    (q x : List ℕ) (ys : List (List ℕ)) → contains q (emplace x ys) ≡ (q == x || contains q ys)
unfolding emplace contains
contains-emplace q x [] = refl
contains-emplace q x (y ∷ ys) = elim (Bool-cases (less x y)) [
  | inl first ↦ rw first refl
  | inr later ↦ elim (Bool-cases (less y x)) [
    | inl after ↦ rw (later, after, contains-emplace q x ys) (ground arith)
    | inr same ↦ rw (later, same, less-same x y later same) (ground arith)
  ]
]

set_of-IsAscending : (xs : List (List ℕ)) → IsAscending (set_of xs)
unfolding set_of
set_of-IsAscending [] = tt
set_of-IsAscending (x ∷ xs) = emplace-IsAscending x (set_of xs) (set_of-IsAscending xs)

contains-set_of : (q : List ℕ) (xs : List (List ℕ)) → contains q (set_of xs) ≡ contains q xs
unfolding set_of contains
contains-set_of q [] = refl
contains-set_of q (x ∷ xs) =
    contains-emplace q x (set_of xs) ∙ ap (λ b. q == x || b) (contains-set_of q xs)

convert_all-ok : (xs : List (List ℕ)) → convert_all ok xs ≡ ok xs
unfolding convert_all
convert_all-ok [] = refl
convert_all-ok (x ∷ xs) = rw (convert_all-ok xs) refl

-- A container of strings is made of the parts of the text between the semicolons, each of them once and
-- in ascending order: their order in the request and their repetitions are lost.
pub convert-set_of :
    (text : List ℕ)
    → (parts : List (List ℕ)) × (convert (sequence string) text ≡ ok parts)
      × IsAscending parts
      × ((part : List ℕ) → contains part parts ≡ contains part (split text))
unfolding convert
convert-set_of text = (
  set_of (split text),
  convert_all-ok (set_of (split text)),
  set_of-IsAscending (split text),
  λ part. contains-set_of part (split text),
)
