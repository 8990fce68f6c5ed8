-- ===== src/Net/Http/Request/Paths.antt =====
-- The test of the path in `Session::HandleRequest` of src/mif/net/http/detail/session.cpp.
use mif.Prelude.{
  nat_beq, Bool-cases, ℕ, ◌≡◌, refl, sym, ap, ◌∙◌, ◌≢◌, ◌↔◌, inl, inr, true, false, not, ◌&&◌, ◌||◌,
  List, [], ◌∷◌, ◌++◌, arith,
}
use mif.Net.Http.Request.{has_dots, is_bad_path}

-- The two dots stand somewhere in a path.
abbrev pub HasDots : List ℕ → Type 0
HasDots s = (xs : List ℕ) × (ys : List ℕ) × (s ≡ xs ++ b'.' ∷ b'.' ∷ ys)

-- A path begins with a slash and has no ".." anywhere.
abbrev pub IsGoodPath : List ℕ → Type 0
IsGoodPath path = ((rest : List ℕ) × (path ≡ b'/' ∷ rest)) × ¬ HasDots path

has_dots-append : (xs ys : List ℕ) → has_dots (xs ++ b'.' ∷ b'.' ∷ ys) ≡ true
unfolding has_dots
has_dots-append [] ys = refl
has_dots-append (x ∷ []) ys = ground arith
has_dots-append (x ∷ y ∷ xs) ys = ground (arith, has_dots-append (y ∷ xs) ys)

has_dots-HasDots : (s : List ℕ) → has_dots s ≡ true → HasDots s
unfolding has_dots
has_dots-HasDots [] h = cc
has_dots-HasDots (a ∷ []) h = cc
has_dots-HasDots (a ∷ b ∷ s) h = elim (Bool-cases (nat_beq a b'.' && nat_beq b b'.')) [
  | inl e ↦
      let first : a ≡ b'.' = ground arith in
      let second : b ≡ b'.' = ground arith in ([], s, rw (first, second) refl)
  | inr e ↦
      let (xs, ys, cut) = has_dots-HasDots (b ∷ s) (rw e at h) in
      (a ∷ xs, ys, ap (λ (t : List ℕ). a ∷ t) cut)
]

clash : (s : List ℕ) → HasDots s → has_dots s ≢ false
clash s (xs, ys, cut) absent =
    let both : true ≡ false = sym (has_dots-append xs ys) ∙ ap has_dots (sym cut) ∙ absent in cc

first_of : (c : ℕ) (s : List ℕ) {rest : List ℕ} → c ∷ s ≡ b'/' ∷ rest → c ≡ b'/'
first_of c s e = ground arith

pub is_bad_path_iff : (path : List ℕ) → (is_bad_path path ≡ false) ↔ IsGoodPath path
unfolding is_bad_path
is_bad_path_iff [] = ((λ h. cc), λ g. cc)
is_bad_path_iff (c ∷ s) = (there, back)
  where
    there : (not (nat_beq c b'/') || has_dots (c ∷ s)) ≡ false → IsGoodPath (c ∷ s)
    there h =
        let slash : c ≡ b'/' = ground arith in
        let absent : has_dots (c ∷ s) ≡ false = ground arith in
        ((s, rw slash refl), λ d. clash (c ∷ s) d absent)

    back : IsGoodPath (c ∷ s) → (not (nat_beq c b'/') || has_dots (c ∷ s)) ≡ false
    back g = elim (Bool-cases (has_dots (c ∷ s))) [
      | inl e ↦ absurd (g.1 (has_dots-HasDots (c ∷ s) e))
      | inr e ↦ let first : c ≡ b'/' = first_of c s g.0.1 in rw (e, first) refl
    ]
