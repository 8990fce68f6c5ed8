-- ===== src/Db/Transaction/Tests.antt =====
-- The theorems on transactions at concrete inputs.
use mif.Prelude.{ℕ, ◌≡◌, refl, Bool, true, false, some, [], ◌∷◌}
use mif.Db.Transaction.{
  init, begin, Command, begins, commits, rolls_back, Log, Transaction, execute_direct, send, sent,
  begin_it, commit_it, rollback_it, is_init, is_begin, construct, destroy, begins_op, commits_op,
  run,
}
use mif.Db.Transaction.Lifetime.{accepted_on, Ends, lifetime-Ends}

-- A database that refuses every COMMIT
abbrev stubborn : Log → ℕ → Command → Bool
stubborn log c begins = false
stubborn log c commits = true
stubborn log c rolls_back = false

abbrev opened : Transaction
opened = record { connection = some 3; state = begin }

abbrev other : Transaction
other = record { connection = some 4; state = init }

abbrev open_log : Log
open_log = record { connection = 3; command = begins; accepted = true } ∷ []

-- A commit that is refused leaves the transaction open, and the destructor rolls it back.
rolled_back :
    accepted_on 3 (
      destroy stubborn
        (run stubborn opened (commits_op ∷ []) open_log).0
        (run stubborn opened (commits_op ∷ []) open_log).1)
    ≡ begins ∷ rolls_back ∷ []
unfolding run commit_it rollback_it send sent execute_direct is_begin destroy
rolled_back = refl

lifetime-Ends_example :
    let (t', log') =
      run stubborn opened (commits_op ∷ begins_op ∷ []) (construct stubborn (some 3) true []).1 in
    Ends [] (accepted_on 3 (destroy stubborn t' log'))
unfolding construct begin_it is_init send sent execute_direct
lifetime-Ends_example =
    lifetime-Ends stubborn 3 true (commits_op ∷ begins_op ∷ []) [] (λ l. refl) refl
