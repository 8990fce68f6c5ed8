-- ===== src/Service/PerThreadPool/Tests.antt =====
-- The pool of one service for each thread, at concrete inputs.
use mif.Prelude.{nat_beq, if◌then◌else◌, ok, ℕ, ◌≡◌, refl, [], ◌∷◌, arith, bytes_eq, nat_eq}
use mif.Prelude.Map.{lookup, emplace, insert, erase}
use mif.Service.PerThreadPool.{Check, good, bad, Services, is_ok, create, checked, get_service}
use mif.Service.PerThreadPool.Confined.{Confined}

-- Thread 1 has service 100, and thread 2 has service 200, which is bad.
abbrev services : Services
services = (1, 100) ∷ (2, 200) ∷ []

abbrev check : ℕ → Check
check s = if nat_beq s 200 then bad else good

replaced : get_service check (ok 300) 2 services ≡ (ok 300, (1, 100) ∷ (2, 300) ∷ [])
unfolding get_service checked create is_ok lookup emplace insert erase
replaced = refl

services-Confined : Confined services
unfolding lookup
services-Confined t u s p q = ground arith
