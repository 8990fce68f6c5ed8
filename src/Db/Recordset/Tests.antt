-- ===== src/Db/Recordset/Tests.antt =====
-- A recordset at concrete inputs.
use mif.Prelude.{nat_beq, Result, ok, length, ℕ, ◌≡◌, refl, true, false, none, some, [], ◌∷◌, arith}
use mif.Db.Recordset.{
  Text, PgResult, Recordset, param_values, c_string, accept, open_recordset, read,
}
use mif.Db.Recordset.Cursor.{rows_seen, rows_from, rows_seen-open_recordset}

-- Two rows of one column, of which the second is null.
abbrev answer : PgResult
answer = record {
  is_good = true;
  ntuples = 2;
  nfields = some 1;
  is_null = λ row column. elim row [ none ↦ true | some n ↦ nat_beq n 1 ];
  value = λ row column. some (b'7' ∷ []);
  fname = λ column. some (b'c' ∷ []);
  fnumber = λ name. some 0;
}

abbrev opened : Recordset
opened = record { result = answer; fields_count = 1; has_next = true; rows_read = 0 }

abbrev first : Recordset
first = record opened { rows_read = 1 }

open_recordset-answer :
    open_recordset true true (λ name prms. some answer) (b's' ∷ []) [] ≡ ok opened
unfolding open_recordset accept
open_recordset-answer = refl

param_values-empty : param_values ([] ∷ (b'a' ∷ 0 ∷ []) ∷ []) ≡ none ∷ some (b'a' ∷ []) ∷ []
unfolding param_values c_string
param_values-empty = refl

rows_seen-open_recordset_example :
    ((rows_seen 3 opened).0 ≡ rows_from 0 2)
    × (read (rows_seen 3 opened).1 ≡ (false, (rows_seen 3 opened).1))
rows_seen-open_recordset_example =
    rows_seen-open_recordset true true (λ name prms. some answer) (b's' ∷ []) [] 3 {r = opened}
      open_recordset-answer (omega arith)

-- A parser of the length of a text
abbrev parse : Text → Result ℕ
parse s = ok (length s)
