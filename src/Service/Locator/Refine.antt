-- ===== src/Service/Locator/Refine.antt =====
-- The locator against a partial function from identifiers to services.
use mif.Prelude.{
  ltb, nat_beq, nat_beq_iff, Option-cases, if◌then◌else◌, invalid_argument, ok, throws, ℕ, ◌≡◌,
  refl, inl, inr, true, false, Option, none, some, List, [], ◌∷◌, arith, bytes_eq, nat_eq,
}
use mathlib.Core.Path.{fun_ext}
use mif.Prelude.Map.{lookup}
use mif.Prelude.Map.Laws.{lookup-insert, lookup-erase}
use mif.Service.Locator.{
  Locator, get, exists, put, remove, clear, Call, gets, tests, removes, puts, clears, Answer,
  service, tested, done, step, run,
}

-- What a client may know: which service an identifier has.
abbrev pub Table : Type 0
Table = ℕ → Option ℕ

abbrev update : ℕ → Option ℕ → Table → Table
update id s t j = if nat_beq id j then s else t j

-- The calls on a table, each answer being read off the table
abbrev answer : Table → Call → Answer
answer t (gets id) = service (elim (t id) [ none ↦ throws invalid_argument | some s ↦ ok s ])
answer t (tests id) = tested (elim (t id) [ none ↦ false | some s ↦ true ])
answer t (removes id) = done (elim (t id) [ none ↦ throws invalid_argument | some s ↦ ok tt ])
answer t (puts id s) = done (ok tt)
answer t clears = done (ok tt)

abbrev after : Table → Call → Table
after t (gets id) = t
after t (tests id) = t
after t (removes id) = update id none t
after t (puts id s) = update id (some s) t
after t clears = λ _. none

pub answers : Table → List Call → List Answer
answers t [] = []
answers t (c ∷ cs) = answer t c ∷ answers (after t c) cs

abbrev pub view : Locator → Table
view m id = lookup id m

step-answer : (m : Locator) (c : Call) → (step m c).0 ≡ answer (view m) c
unfolding step get exists remove
step-answer m (gets id) = refl
step-answer m (tests id) = refl
step-answer m (removes id) = ground arith
step-answer m (puts id s) = refl
step-answer m clears = refl

step-after : (m : Locator) (c : Call) (j : ℕ) → view (step m c).1 j ≡ after (view m) c j
unfolding step remove put clear lookup
step-after m (gets id) j = refl
step-after m (tests id) j = refl
step-after m (removes id) j = elim (Option-cases (lookup id m)) [
  | inl e ↦ rw (e, remove) (ground (arith, nat_beq_iff id j))
  | inr (s, e) ↦ rw (e, remove) (lookup-erase id j m)
]
step-after m (puts id s) j = lookup-insert ltb id j s m
step-after m clears j = refl

-- No sequence of calls tells the locator from the partial function that it holds: every answer is
-- the one read off the function, the exceptions for missing services included.
pub run-answers : (m : Locator) (cs : List Call) → run m cs ≡ answers (view m) cs
unfolding run answers
run-answers m [] = refl
run-answers m (c ∷ cs) = rw (run-answers (step m c).1 cs, fun_ext (step-after m c), step-answer m c)
