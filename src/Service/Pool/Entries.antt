-- ===== src/Service/Pool/Entries.antt =====
-- What the operations of the pool do to its entries, one by one.
use mif.Prelude.{
  ltb, nat_beq, nat_beq_iff, Bool-cases, if◌then◌else◌, length, All, ℕ, suc, ◌+◌, ◌≤◌, ◌≡◌, refl,
  sym, ap, ◌≢◌, ◌⊎◌, inl, inr, Bool, true, false, List, [], ◌∷◌, arith, bytes_eq, nat_eq,
}
use mif.Prelude.Map.{emplace, insert}
use mathlib.Core.Path.{subst}
use mif.Prelude.Map.Laws.{length-insert-le}
use mif.Service.Pool.{Check, not_checkable, good, Services, found, exhausted, scan, mark}

-- A service is not among some.
abbrev pub NotIn : ℕ → List ℕ → Type 0
NotIn s xs = All (λ x. x ≢ s) xs

abbrev pub Distinct : List ℕ → Type 0
Distinct [] = Unit {0}
Distinct (x ∷ xs) = NotIn x xs × Distinct xs

-- An entry that is not busy is held by nobody.
abbrev pub Free : List ℕ → ℕ × Bool → Type 0
Free holders (s, busy) = busy ≡ false → NotIn s holders

-- Every property of the entries survives the loop, and holds of the free service that it finds.
pub scan-All :
    (P : ℕ × Bool → Type 0) (check : ℕ → Check) (m : Services) → All P m → All P (scan check m).0
unfolding scan
scan-All P check [] h = tt
scan-All P check ((s, busy) ∷ rest) h = ground (arith, scan-All P check rest h.1)

pub scan-found :
    (P : ℕ × Bool → Type 0) (check : ℕ → Check) (m : Services) (s : ℕ)
    → All P m
    → (scan check m).1 ≡ found s
    → P (s, false)
unfolding scan
scan-found P check [] s h e = cc
scan-found P check ((s', busy) ∷ rest) s h e = ground (arith, scan-found P check rest s h.1)

-- An entry is in use.
abbrev pub IsBusy : ℕ × Bool → Type 0
IsBusy entry = entry.1 ≡ true

-- The check lets a service pass.
abbrev pub Passes : Check → Type 0
Passes c = (c ≡ good) ⊎ (c ≡ not_checkable)

-- Without a free service, all that the loop leaves are busy.
pub scan-exhausted :
    (check : ℕ → Check) (m : Services) → (scan check m).1 ≡ exhausted → All IsBusy (scan check m).0
unfolding scan
scan-exhausted check [] e = tt
scan-exhausted check ((s, busy) ∷ rest) e = ground (arith, scan-exhausted check rest)

pub scan-Passes :
    (check : ℕ → Check) (m : Services) (s : ℕ) → (scan check m).1 ≡ found s → Passes (check s)
unfolding scan
scan-Passes check [] s e = cc
scan-Passes check ((s', busy) ∷ rest) s e = ground (arith, scan-Passes check rest s)

pub length-scan-le : (check : ℕ → Check) (m : Services) → length (scan check m).0 ≤ length m
unfolding scan
length-scan-le check [] = omega arith
length-scan-le check ((s, busy) ∷ rest) = ground (arith, length-scan-le check rest)

pub length-mark : (s : ℕ) (busy : Bool) (m : Services) → length (mark s busy m) ≡ length m
unfolding mark
length-mark s busy [] = refl
length-mark s busy ((s', busy') ∷ m) = ap suc (length-mark s busy m)

pub insert-All :
    (P : ℕ × Bool → Type 0) (k : ℕ) (v : Bool) (m : Services)
    → P (k, v)
    → All P m
    → All P (insert ltb k v m)
unfolding insert
insert-All P k v [] p h = (p, tt)
insert-All P k v ((j, w) ∷ m) p h = ground (arith, insert-All P k v m p h.1)

pub emplace-All :
    (P : ℕ × Bool → Type 0) (k : ℕ) (v : Bool) (m : Services)
    → P (k, v)
    → All P m
    → All P (emplace ltb k v m)
unfolding emplace
emplace-All P k v m p h = ground (arith, insert-All P k v m p h)

pub length-emplace-le :
    (k : ℕ) (v : Bool) (m : Services) → length (emplace ltb k v m) ≤ length m + 1
unfolding emplace
length-emplace-le k v m = ground (arith, length-insert-le ltb k v m)

pub mark-true-Free :
    (s : ℕ) (holders : List ℕ) (m : Services)
    → All (Free holders) m
    → All (Free (s ∷ holders)) (mark s true m)
unfolding mark
mark-true-Free s holders [] h = tt
mark-true-Free s holders ((s', busy) ∷ m) h = elim (Bool-cases (nat_beq s' s)) [
  | inl same ↦ rw same (λ e. cc, mark-true-Free s holders m h.1)
  | inr other ↦ rw other (λ e. ((λ e'. ground arith), h.0 e), mark-true-Free s holders m h.1)
]

-- The holders without the one of a service
pub remove : ℕ → List ℕ → List ℕ
remove s [] = []
remove s (x ∷ xs) = if nat_beq x s then xs else x ∷ remove s xs

pub remove-NotIn : (s t : ℕ) (xs : List ℕ) → NotIn t xs → NotIn t (remove s xs)
unfolding remove
remove-NotIn s t [] h = tt
remove-NotIn s t (x ∷ xs) h = ground (arith, remove-NotIn s t xs h.1)

pub remove-NotIn_self : (s : ℕ) (xs : List ℕ) → Distinct xs → NotIn s (remove s xs)
unfolding remove
remove-NotIn_self s [] h = tt
remove-NotIn_self s (x ∷ xs) h = elim (Bool-cases (nat_beq x s)) [
  | inl same ↦ rw same (subst (λ (y : ℕ). NotIn y xs) ((nat_beq_iff x s).0 same) h.0)
  | inr other ↦ rw other ((λ e. ground arith), remove-NotIn_self s xs h.1)
]

pub remove-Distinct : (s : ℕ) (xs : List ℕ) → Distinct xs → Distinct (remove s xs)
unfolding remove
remove-Distinct s [] h = tt
remove-Distinct s (x ∷ xs) h = ground (arith, remove-NotIn s x xs h.0, remove-Distinct s xs h.1)

pub mark-false-Free :
    (s : ℕ) (holders : List ℕ) (m : Services)
    → Distinct holders
    → All (Free holders) m
    → All (Free (remove s holders)) (mark s false m)
unfolding mark
mark-false-Free s holders [] d h = tt
mark-false-Free s holders ((s', busy) ∷ m) d h = elim (Bool-cases (nat_beq s' s)) [
  | inl same ↦ rw same (
    λ e.
        subst (λ (y : ℕ). NotIn y (remove s holders)) (sym ((nat_beq_iff s' s).0 same))
          (remove-NotIn_self s holders d),
    mark-false-Free s holders m d h.1,
  )
  | inr other ↦ rw other (λ e. remove-NotIn s s' holders (h.0 e), mark-false-Free s holders m d h.1)
]

pub remove-Free :
    (s : ℕ) (holders : List ℕ) (m : Services)
    → All (Free holders) m
    → All (Free (remove s holders)) m
remove-Free s holders [] h = tt
remove-Free s holders ((s', busy) ∷ m) h =
    (λ e. remove-NotIn s s' holders (h.0 e), remove-Free s holders m h.1)
