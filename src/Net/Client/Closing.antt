-- ===== src/Net/Client/Closing.antt =====
-- The life of a client: which effects a sequence of calls can have.
use mif.Prelude.{All, ℕ, suc, ◌-◌, ◌≡◌, refl, ap, true, false, List, [], ◌∷◌, arith}
use mif.Net.Client.{
  Client, Effect, process_data, close, control_close_me, publish, Call, gets_data, gets_close,
  closes_itself, posts_data, step, run, fresh,
}

-- How often `Close` runs.
abbrev pub closings : List Effect → ℕ
closings [] = 0
closings (close ∷ es) = suc (closings es)
closings (process_data b ∷ es) = closings es
closings (control_close_me ∷ es) = closings es
closings (publish b ∷ es) = closings es

-- How often `OnClose` is called.
abbrev pub close_calls : List Call → ℕ
close_calls [] = 0
close_calls (gets_close ∷ xs) = suc (close_calls xs)
close_calls (gets_data b ∷ xs) = close_calls xs
close_calls (closes_itself live ∷ xs) = close_calls xs
close_calls (posts_data live b ∷ xs) = close_calls xs

-- An effect is a `Close`.
abbrev pub IsClose : Effect → Type 0
IsClose e = e ≡ close

abbrev pub closed : Client
closed = record { marked_as_closed = true }

-- Once `OnClose` has been called, no sequence of calls has the client process data, publish or
-- close its connection: all that still happens is `Close`, once for each further call of `OnClose`.
pub run-closed :
    (xs : List Call) → All IsClose (run closed xs).1 × (closings (run closed xs).1 ≡ close_calls xs)
unfolding run step
run-closed [] = (tt, refl)
run-closed (gets_data b ∷ xs) = run-closed xs
run-closed (gets_close ∷ xs) = ((refl, (run-closed xs).0), ap suc (run-closed xs).1)
run-closed (closes_itself live ∷ xs) = run-closed xs
run-closed (posts_data live b ∷ xs) = run-closed xs

-- From a fresh client, `Close` runs on every call of `OnClose` but the first: never, if the
-- connection is closed once.
pub closings-run-fresh : (xs : List Call) → closings (run fresh xs).1 ≡ close_calls xs - 1
unfolding run step
closings-run-fresh [] = refl
closings-run-fresh (gets_data [] ∷ xs) = closings-run-fresh xs
closings-run-fresh (gets_data (b ∷ bs) ∷ xs) = closings-run-fresh xs
closings-run-fresh (gets_close ∷ xs) = omega (arith, (run-closed xs).1)
closings-run-fresh (closes_itself true ∷ xs) = closings-run-fresh xs
closings-run-fresh (closes_itself false ∷ xs) = closings-run-fresh xs
closings-run-fresh (posts_data true b ∷ xs) = closings-run-fresh xs
closings-run-fresh (posts_data false b ∷ xs) = closings-run-fresh xs
