-- ===== src/Prelude/Map/Laws.antt =====
-- Reading a map after it was changed, in `if` form.
use mif.Prelude.{
  Keyed, if◌then◌else◌, ◌==◌, length, ◌+◌, ◌≤◌, ◌≡◌, refl, Bool, none, some, List, [], ◌∷◌, arith,
  bytes_eq, nat_eq,
}
use mif.Prelude.Map.{lookup, erase, insert, emplace}

module _ {ℓ κ} {K : Type ℓ} {V : Type κ} ⦃e : Keyed K⦄ where
  pub lookup-erase :
      (k q : K) (m : List (K × V)) → lookup q (erase k m) ≡ (if k == q then none else lookup q m)
  unfolding lookup erase
  lookup-erase k q [] = ground arith
  lookup-erase k q ((i, v) ∷ m) =
      ground (arith, e.same_iff k q, e.same_iff i k, e.same_iff i q, lookup-erase k q m)

module _ {ℓ κ} {K : Type ℓ} {V : Type κ} ⦃e : Keyed K⦄ (lt : K → K → Bool) where
  pub lookup-insert :
      (k q : K) (v : V) (m : List (K × V))
      → lookup q (insert lt k v m) ≡ (if k == q then some v else lookup q m)
  unfolding lookup insert
  lookup-insert k q v [] = refl
  lookup-insert k q v ((i, w) ∷ m) =
      ground (arith, e.same_iff k q, e.same_iff i k, e.same_iff i q, lookup-insert k q v m)

  pub emplace-eq-insert :
      (k : K) (v : V) (m : List (K × V)) → lookup k m ≡ none → emplace lt k v m ≡ insert lt k v m
  unfolding emplace
  emplace-eq-insert k v m e = rw (e, emplace)

  pub emplace_present :
      (k : K) (v : V) (m : List (K × V)) {w : V} → lookup k m ≡ some w → emplace lt k v m ≡ m
  unfolding emplace
  emplace_present k v m e = rw (e, emplace)

  pub length-insert-le :
      (k : K) (v : V) (m : List (K × V)) → length (insert lt k v m) ≤ length m + 1
  unfolding insert
  length-insert-le k v [] = omega arith
  length-insert-le k v ((q, w) ∷ m) = ground (arith, length-insert-le k v m)
