-- ===== src/Service/Counter/Holders.antt =====
-- The intrusive pointers to an object of include/mif/service/detail/service.h.
use mif.Prelude.{ℕ, ◌+◌, ◌^◌, ◌≤◌, ◌<◌, ◌≡◌, refl, true, false, arith}
use mif.Service.Counter.{Object, created, add_ref, release}

-- The histories of an object and the number of the pointers to it: a pointer is made while the object
-- is there and the number is no overflow, and every pointer ends.
pub data Reach : Object → ℕ → Type 0 where
  begun : Reach created 0
  holds :
      {o : Object} {n : ℕ}
      → Reach o n
      → o.is_deleted ≡ false
      → n + 1 < 2 ^ 64
      → Reach (add_ref o) (n + 1)
  ends : {o : Object} {n : ℕ} → Reach o (n + 1) → Reach (release o) n

-- The counter is the number of pointers, which is no overflow, and while there is one the object is
-- not deleted.
abbrev pub IsCounted : Object → ℕ → Type 0
IsCounted o n = (o.counter ≡ n) × (n < 2 ^ 64) × (1 ≤ n → o.is_deleted ≡ false)

Reach-IsCounted : {o : Object} {n : ℕ} → Reach o n → IsCounted o n
unfolding add_ref release
Reach-IsCounted begun = (refl, omega arith, λ l. refl)
Reach-IsCounted (holds {o} {n} r d l) =
    let c = Reach-IsCounted r in (omega (arith, c), omega arith, λ m. d)
Reach-IsCounted (ends {o} {n} r) =
    let c = Reach-IsCounted r in (omega (arith, c), omega (arith, c), λ m. ground arith)

-- An object lives as long as there is a pointer to it: at any time the counter is the number of
-- pointers, the object is not deleted while there is one, and the end of the last one deletes it.
pub Reach-release :
    {o : Object} {n : ℕ} → Reach o n → IsCounted o n × (n ≡ 1 → (release o).is_deleted ≡ true)
unfolding release
Reach-release {o} {n} r = let c = Reach-IsCounted r in (c, λ e. ground arith)
