-- ===== src/Service/Pool/Choice.antt =====
-- Which service `GetService` lends.
use mif.Prelude.{
  ltb, leb, Bool-cases, Exception, Result, ok, throws, length, All, ℕ, ◌<◌, ◌≡◌, refl, sym, ap, ◌∙◌,
  ◌⊎◌, inl, inr, Bool, false, [], ◌∷◌, arith, bytes_eq, nat_eq,
}
use mif.Prelude.Map.{emplace}
use mif.Service.Pool.{
  Check, Services, Scanned, found, exhausted, raised, scan, hold, make_new, get_service,
}
use mif.Service.Pool.Entries.{IsBusy, Passes, scan-exhausted, scan-Passes, scan-found}

-- An entry that is in the pool
abbrev pub Has : ℕ × Bool → Services → Type 0
Has entry [] = ⊥
Has entry (x ∷ m) = (x ≡ entry) ⊎ Has entry m

Has-All : (m : Services) → All (λ e. Has e m) m
Has-All [] = tt
Has-All (x ∷ m) = (inl refl, weaken m (Has-All m))
  where
    weaken : (xs : Services) → All (λ e. Has e m) xs → All (λ e. Has e (x ∷ m)) xs
    weaken [] h = tt
    weaken (y ∷ ys) h = (inr h.0, weaken ys h.1)

hold-ok : (s s' : ℕ) (m : Services) → (hold s m).0 ≡ ok s' → s ≡ s'
unfolding hold
hold-ok s s' m e = ground arith

-- How a new service comes about: all that is left in the pool is busy, and there is room.
abbrev pub Made : (ℕ → Check) → ℕ → Result ℕ → Services → ℕ → Type 0
Made check limit made m s =
    (made ≡ ok s) × All IsBusy (scan check m).0 × (length (scan check m).0 < limit)

make_new-ok :
    (limit s : ℕ) (made : Result ℕ) (m : Services)
    → (make_new limit made m).0 ≡ ok s
    → (made ≡ ok s) × (length m < limit)
unfolding make_new
make_new-ok limit s (throws e) m h = ground arith
make_new-ok limit s (ok s') m h = elim (Bool-cases (leb limit (length m))) [
  | inl full ↦ cc (rw full at h)
  | inr room ↦ (ap ok (hold-ok s' s (emplace ltb s' false m) (rw room at h)), ground arith)
]

module _ (check : ℕ → Check) (limit : ℕ) (made : Result ℕ) (m : Services) where
  get_service-found :
      (s : ℕ)
      → (scan check m).1 ≡ found s
      → get_service check limit made m ≡ hold s (scan check m).0
  unfolding get_service
  get_service-found s e = rw (e, get_service)

  get_service-exhausted :
      (scan check m).1 ≡ exhausted
      → get_service check limit made m ≡ make_new limit made (scan check m).0
  unfolding get_service
  get_service-exhausted e = rw (e, get_service)

  get_service-raised :
      (x : Exception)
      → (scan check m).1 ≡ raised x
      → get_service check limit made m ≡ (throws x, (scan check m).0)
  unfolding get_service
  get_service-raised x e = rw (e, get_service)

-- What `GetService` lends: a service of the pool that was not busy and passes its check, or a new
-- one, which is made only if every service that is left in the pool is busy and they are fewer
-- than the limit.
pub get_service-lends :
    (check : ℕ → Check) (limit : ℕ) (made : Result ℕ) (m : Services) (s : ℕ)
    → (get_service check limit made m).0 ≡ ok s
    → (Has (s, false) m × Passes (check s)) ⊎ Made check limit made m s
get_service-lends check limit made m s h = go (scan check m).1 refl
  where
    first : {r : Result ℕ × Services} → get_service check limit made m ≡ r → r.0 ≡ ok s
    first e = sym (ap (λ (r : Result ℕ × Services). r.0) e) ∙ h

    go :
        (r : Scanned)
        → (scan check m).1 ≡ r
        → (Has (s, false) m × Passes (check s)) ⊎ Made check limit made m s
    go (found s') e =
        let same =
          hold-ok s' s (scan check m).0 (first (get_service-found check limit made m s' e)) in
        let e' : (scan check m).1 ≡ found s = e ∙ ap found same in
        inl (scan-found (λ x. Has x m) check m s (Has-All m) e', scan-Passes check m s e')
    go exhausted e =
        let (made_it, room) =
          make_new-ok limit s made (scan check m).0
            (first (get_service-exhausted check limit made m e)) in
        inr (made_it, scan-exhausted check m e, room)
    go (raised x) e = cc (first (get_service-raised check limit made m x e))
