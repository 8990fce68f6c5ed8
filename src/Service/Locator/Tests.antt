-- ===== src/Service/Locator/Tests.antt =====
-- The locator at concrete inputs.
use mif.Prelude.{invalid_argument, ok, throws, ◌≡◌, refl, false, List, [], ◌∷◌, bytes_eq, nat_eq}
use mif.Prelude.Map.{lookup, insert, erase}
use mif.Service.Locator.{
  Call, gets, tests, removes, puts, service, tested, done, run, step, get, exists, put, remove,
  clear,
}
use mif.Service.Locator.Refine.{view, answers, run-answers}

abbrev calls : List Call
calls = puts 7 100 ∷ puts 3 200 ∷ gets 7 ∷ removes 7 ∷ tests 7 ∷ gets 3 ∷ removes 7 ∷ []

run-calls :
    run [] calls
    ≡ done (ok tt)
      ∷ done (ok tt)
      ∷ service (ok 100)
      ∷ done (ok tt)
      ∷ tested false
      ∷ service (ok 200)
      ∷ done (throws invalid_argument)
      ∷ []
unfolding run step get exists put remove clear insert lookup erase
run-calls = refl

run-answers_example : run [] calls ≡ answers (view []) calls
run-answers_example = run-answers [] calls
