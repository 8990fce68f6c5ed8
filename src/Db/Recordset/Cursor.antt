-- ===== src/Db/Recordset/Cursor.antt =====
-- The loop of a client over a `Recordset` of src/mif/db/postgresql/detail/recordset.cpp.
use mif.Prelude.{
  if◌then◌else◌, ok, ℕ, zero, suc, ◌+◌, ◌<◌, ◌≡◌, refl, ap, ◌∙◌, Bool, true, false, Option, none,
  some, List, [], ◌∷◌, arith,
}
use mif.Db.Recordset.{
  Text, PgResult, Recordset, current_row, param_values, accept, open_recordset, read,
}

-- `while (recordset->Read()) ...`: the rows that the body sees, and the recordset after it
unfoldable pub rows_seen : ℕ → Recordset → List (Option ℕ) × Recordset
rows_seen zero r = ([], r)
rows_seen (suc fuel) r =
    let (b, next) = read r in
    let (rows, last) = rows_seen fuel next in
    if b then (current_row next.rows_read ∷ rows, last) else ([], next)

-- The rows from `i` on, as many as `n`
abbrev pub rows_from : ℕ → ℕ → List (Option ℕ)
rows_from i zero = []
rows_from i (suc n) = some i ∷ rows_from (i + 1) n

-- No row is to come.
abbrev pub IsAtEnd : Recordset → Type 0
IsAtEnd r = (r.has_next ≡ false) × (r.rows_read ≡ r.result.ntuples)

read-ends :
    (r : Recordset)
    → r.has_next ≡ true
    → r.rows_read ≡ r.result.ntuples
    → read r ≡ (false, record r { has_next = false })
unfolding read
read-ends r h e = ground arith

read-goes :
    (r : Recordset)
    → r.has_next ≡ true
    → r.rows_read < r.result.ntuples
    → read r ≡ (true, record r { rows_read = r.rows_read + 1 })
unfolding read
read-goes r h e = ground arith

current_row_lem : (n : ℕ) → current_row (n + 1) ≡ some n
unfolding current_row
current_row_lem n = let e : n + 1 ≡ suc n = omega arith in ap current_row e

rows_seen-rows_from :
    (fuel n : ℕ) (r : Recordset)
    → n < fuel
    → r.has_next ≡ true
    → r.rows_read + n ≡ r.result.ntuples
    → ((rows_seen fuel r).0 ≡ rows_from r.rows_read n)
      × IsAtEnd (rows_seen fuel r).1
      × ((rows_seen fuel r).1.result ≡ r.result)
unfolding rows_seen current_row
rows_seen-rows_from zero n r l h e = absurd (omega arith)
rows_seen-rows_from (suc fuel) zero r l h e =
    rw (read-ends r h (omega arith)) (refl, (refl, omega arith), refl)
rows_seen-rows_from (suc fuel) (suc n) r l h e =
    let rest =
      rows_seen-rows_from fuel n (record r { rows_read = r.rows_read + 1 }) (omega arith) h
        (omega arith) in
    rw (read-goes r h (omega arith), current_row_lem r.rows_read, rest.0) (refl, rest.1, rest.2)

accept-opened :
    (answer : Option PgResult) {r : Recordset}
    → accept answer ≡ ok r
    → (r.has_next ≡ true) × (r.rows_read ≡ 0) × (answer ≡ some r.result)
unfolding accept
accept-opened none h = cc
accept-opened (some a) {r} h = ground arith

open_recordset-accept :
    (connection holder : Bool) (exec_prepared : Text → List (Option Text) → Option PgResult)
    (name : Text) (parameters : List Text) {r : Recordset}
    → open_recordset connection holder exec_prepared name parameters ≡ ok r
    → accept (exec_prepared name (param_values parameters)) ≡ ok r
unfolding open_recordset
open_recordset-accept true true exec_prepared [] parameters h = cc
open_recordset-accept true true exec_prepared (c ∷ s) parameters h = h
open_recordset-accept true false exec_prepared name parameters h = cc
open_recordset-accept false holder exec_prepared name parameters h = cc

-- A recordset that was opened: a client that reads until `Read` returns false sees every row of
-- the answer once and in order, in as many calls as there are rows and one; then no row is to come,
-- and a further `Read` returns false and changes nothing.
pub rows_seen-open_recordset :
    (connection holder : Bool) (exec_prepared : Text → List (Option Text) → Option PgResult)
    (name : Text) (parameters : List Text) (fuel : ℕ) {r : Recordset}
    → open_recordset connection holder exec_prepared name parameters ≡ ok r
    → r.result.ntuples < fuel
    → ((rows_seen fuel r).0 ≡ rows_from 0 r.result.ntuples)
      × (read (rows_seen fuel r).1 ≡ (false, (rows_seen fuel r).1))
unfolding read
rows_seen-open_recordset connection holder exec_prepared name parameters fuel {r} h l =
    let opened =
      accept-opened (exec_prepared name (param_values parameters))
        (open_recordset-accept connection holder exec_prepared name parameters h) in
    let seen = rows_seen-rows_from fuel r.result.ntuples r l opened.0 (omega (arith, opened.1)) in
    (seen.0 ∙ ap (λ (i : ℕ). rows_from i r.result.ntuples) opened.1, rw (seen.1.0, read) refl)
