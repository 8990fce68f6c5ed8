-- ===== src/Net/Http/Routing/Slashes.antt =====
-- The slashes of a url: what stands before the last one, and before any of them.
use mif.Prelude.{
  Bool-cases, Option-cases, length, ℕ, ◌≤◌, ◌≡◌, refl, sym, ap, ◌∙◌, ◌≢◌, ◌⊎◌, inl, inr, none, some,
  [], ◌∷◌, ◌++◌, append_assoc, arith, length_laws,
}
use mif.Net.Http.Routing.{UrlPath, slash, before_last_slash, ends_in_slash, or_root, with_slash}

-- The key is what stands before some slash of the url, and "/" where that is empty.
abbrev pub Above : UrlPath → UrlPath → Type 0
Above url key = (p : UrlPath) × (q : UrlPath) × (url ≡ p ++ slash ∷ q) × (key ≡ or_root p)

pub before_last_slash-some :
    (url p : UrlPath)
    → before_last_slash url ≡ some p
    → (q : UrlPath) × (url ≡ p ++ slash ∷ q) × (before_last_slash q ≡ none)
unfolding before_last_slash
before_last_slash-some [] p e = cc
before_last_slash-some (c ∷ url) p e = elim (Option-cases (before_last_slash url)) [
  | inl n ↦ (url, ground arith, n)
  | inr (p', s) ↦
      let (q, cut, last) = before_last_slash-some url p' s in
      let whole : p ≡ c ∷ p' = ground arith in (q, ap (λ (x : UrlPath). c ∷ x) cut ∙ rw whole, last)
]

-- A url with a slash has a last one.
pub before_last_slash-none : (p q : UrlPath) → before_last_slash (p ++ slash ∷ q) ≢ none
unfolding before_last_slash
before_last_slash-none [] q e = ground arith
before_last_slash-none (c ∷ p) q e = ground (arith, before_last_slash-none p q)

pub before_last_slash-nil : before_last_slash [] ≡ none
unfolding before_last_slash
before_last_slash-nil = refl

-- The last slash comes after every other one.
pub last_slash_last :
    (p q p' q' : UrlPath)
    → p ++ slash ∷ q ≡ p' ++ slash ∷ q'
    → before_last_slash q' ≡ none
    → (p ≡ p') ⊎ ((r : UrlPath) × (p' ≡ p ++ slash ∷ r))
last_slash_last [] q [] q' e n = inl refl
last_slash_last [] q (d ∷ p') q' e n = inr (p', ground arith)
last_slash_last (c ∷ p) q [] q' e n =
    let same : p ++ slash ∷ q ≡ q' = ground arith in
    absurd (before_last_slash-none p q (ap before_last_slash same ∙ n))
last_slash_last (c ∷ p) q (d ∷ p') q' e n =
    let tails : p ++ slash ∷ q ≡ p' ++ slash ∷ q' = ground arith in
    let heads : c ≡ d = ground arith in
    elim (last_slash_last p q p' q' tails n) [
      | inl same ↦ inl (rw (heads, same))
      | inr (r, longer) ↦ inr (r, rw (heads, longer))
    ]

pub length-or_root : (p : UrlPath) → length p ≤ length (or_root p)
unfolding or_root
length-or_root [] = omega arith
length-or_root (c ∷ p) = omega arith

pub length-or_root-le : (p : UrlPath) (n : ℕ) → length p ≤ n → 1 ≤ n → length (or_root p) ≤ n
unfolding or_root
length-or_root-le [] n h k = omega arith
length-or_root-le (c ∷ p) n h k = omega arith

-- A url is longer than what stands above it.
pub Above-shorter : (url key : UrlPath) → Above url key → length key ≤ length url
Above-shorter url key (p, q, e, k) =
    rw (k, e) (length-or_root-le p _ (grind length_laws) (grind length_laws))

-- The key is the path, or stands above it.
abbrev pub Covers : UrlPath → UrlPath → Type 0
Covers path key = (key ≡ path) ⊎ Above path key

pub with_slash-cases :
    (path : UrlPath)
    → (with_slash path ≡ path) ⊎ ((with_slash path ≡ path ++ slash ∷ []) × (or_root path ≡ path))
unfolding with_slash or_root
with_slash-cases [] = inl refl
with_slash-cases (c ∷ path) = elim (Bool-cases (ends_in_slash (c ∷ path))) [
  | inl e ↦ inl (rw e)
  | inr e ↦ inr (rw e, refl)
]

pub Covers-with_slash : (path k : UrlPath) → Covers path k → (k ≡ path) ⊎ Above (with_slash path) k
Covers-with_slash path k (inl same) = inl same
Covers-with_slash path k (inr (p, q, e, key)) = elim (with_slash-cases path) [
  | inl w ↦ inr (p, q, w ∙ e, key)
  | inr (w, _) ↦ inr (p, q ++ slash ∷ [], w ∙ rw e (append_assoc p (slash ∷ q) (slash ∷ [])), key)
]

pub with_slash-Covers : (path k : UrlPath) → Above (with_slash path) k → Covers path k
with_slash-Covers path k (p, q, e, key) = elim (with_slash-cases path) [
  | inl w ↦ inr (p, q, sym w ∙ e, key)
  | inr (w, root) ↦ elim (last_slash_last p q path [] (sym e ∙ w) before_last_slash-nil) [
    | inl same ↦ inl (key ∙ ap or_root same ∙ root)
    | inr (r, deeper) ↦ inr (p, r, deeper, key)
  ]
]
