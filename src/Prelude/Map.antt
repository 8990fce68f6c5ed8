-- ===== src/Prelude/Map.antt =====
-- `std::map` as an association list in the order of its keys: iteration goes along the list. An
-- instance gives the order of the keys.
pub mod Laws
use mathlib.Core.Path.{◌≡◌, refl, sym, ◌∙◌}
use mathlib.Core.Bool.{Bool, true, false}
use mathlib.Core.List.{List, [], ◌∷◌}
use mathlib.Core.Option.{Option, none, some}
use native.Mathlib.Omega.{arith}
use mif.Prelude.Tests.{Keyed, ◌==◌, if◌then◌else◌, Bool-cases, ltb}
use Prim.Native.Nat.{ℕ}
use mathlib.Core.Logic.{inl, inr}

module _ {ℓ κ} {K : Type ℓ} {V : Type κ} ⦃e : Keyed K⦄ where
  -- `find`
  unfoldable pub lookup : K → List (K × V) → Option V
  lookup k [] = none
  lookup k ((key, v) ∷ m) = if key == k then some v else lookup k m

  -- `erase(find(k))`, and nothing where the key is absent
  unfoldable pub erase : K → List (K × V) → List (K × V)
  erase k [] = []
  erase k ((key, v) ∷ m) = if key == k then erase k m else (key, v) ∷ erase k m

module _ {ℓ κ} {K : Type ℓ} {V : Type κ} ⦃e : Keyed K⦄ (lt : K → K → Bool) where
  -- `m[k] = v`
  unfoldable pub insert : K → V → List (K × V) → List (K × V)
  insert k v [] = (k, v) ∷ []
  insert k v ((key, w) ∷ m) =
      if key == k
      then (k, v) ∷ m
      else (if lt k key then (k, v) ∷ (key, w) ∷ m else (key, w) ∷ insert k v m)

  -- `emplace(k, v)`: a key that is there keeps its value
  unfoldable pub emplace : K → V → List (K × V) → List (K × V)
  emplace k v m = elim (lookup k m) [ none ↦ insert k v m | some w ↦ m ]
