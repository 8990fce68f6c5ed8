-- ===== src/Service/Counter/Tests.antt =====
-- An object with two pointers, of which one ends.
use mif.Prelude.{ℕ, ◌≡◌, refl, true, arith}
use mif.Service.Counter.{created, add_ref, release}
use mif.Service.Counter.Holders.{Reach, begun, holds, ends, IsCounted, Reach-release}

abbrev one : ℕ
one = 1

two_then_one : Reach (release (add_ref (add_ref created))) 1
unfolding add_ref
two_then_one = ends (holds (holds begun refl (omega arith)) refl (omega arith))

Reach-release_example :
    IsCounted (release (add_ref (add_ref created))) 1
    × (one ≡ 1 → (release (release (add_ref (add_ref created)))).is_deleted ≡ true)
Reach-release_example = Reach-release two_then_one
