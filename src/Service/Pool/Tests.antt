-- ===== src/Service/Pool/Tests.antt =====
-- The pool of services at concrete inputs.
use mif.Prelude.{
  nat_beq, if◌then◌else◌, runtime_error, ok, throws, ℕ, ◌≡◌, refl, true, false, [], ◌∷◌, arith,
  bytes_eq, nat_eq,
}
use mif.Prelude.Map.{lookup, emplace, insert}
use mif.Service.Pool.{Check, good, bad, Services, scan, mark, has, hold, make_new, get_service}
use mif.Service.Pool.Lending.{Inv, Reach, begun, lends, Reach-Inv}

abbrev all_good : ℕ → Check
all_good s = good

-- Service 7 is bad.
abbrev seven_bad : ℕ → Check
seven_bad s = if nat_beq s 7 then bad else good

abbrev services : Services
services = (5, true) ∷ (7, true) ∷ (9, false) ∷ []

lends_nine :
    get_service seven_bad 3 (throws runtime_error) services ≡ (ok 9, (5, true) ∷ (9, true) ∷ [])
unfolding get_service scan hold has mark
lends_nine = refl

two_lent : Reach 2 (get_service all_good 2 (ok 7) ((5, true) ∷ [])).1 (7 ∷ 5 ∷ [])
unfolding get_service scan make_new hold has mark emplace insert lookup
two_lent =
    lends all_good (ok 7) (lends all_good (ok 5) begun (λ s e. tt))
      (λ s e. ((λ same. ground arith), tt))

Reach-Inv_example : Inv 2 (get_service all_good 2 (ok 7) ((5, true) ∷ [])).1 (7 ∷ 5 ∷ [])
Reach-Inv_example = Reach-Inv two_lent
