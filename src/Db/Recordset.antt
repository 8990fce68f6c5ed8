-- ===== src/Db/Recordset.antt =====
-- `Recordset` of src/mif/db/postgresql/detail/recordset.cpp. What libpq answers is a parameter: a
-- `PgResult` is what its functions tell of one `PGresult`.
pub mod Cursor
pub mod Fields
mod Tests
use mif.Prelude.{
  leb, nat_beq, if◌then◌else◌, invalid_argument, logic_error, runtime_error, non_standard, Result,
  ok, throws, ◌>>=◌, ◌>>◌, throw_if, ℕ, zero, suc, ◌+◌, Bool, true, false, not, Option, none, some,
  List, [], ◌∷◌,
}

abbrev pub Text : Type 0
Text = List ℕ

-- `PQresultStatus` is one of the two good ones, `PQntuples`, `PQnfields` (`none` below 0),
-- `PQgetisnull`, `PQgetvalue`, `PQfname` and `PQfnumber` (`none` below 0); row -1 is `none`.
pub record PgResult : Type 0 where
  pub is_good : Bool
  pub ntuples : ℕ
  pub nfields : Option ℕ
  pub is_null : Option ℕ → ℕ → Bool
  pub value : Option ℕ → ℕ → Option Text
  pub fname : ℕ → Option Text
  pub fnumber : Text → Option ℕ

-- `rows_read` is `m_currentRow + 1`.
pub record Recordset : Type 0 where
  pub result : PgResult
  pub fields_count : ℕ
  pub has_next : Bool
  pub rows_read : ℕ

-- `m_currentRow`, that begins with -1
pub current_row : ℕ → Option ℕ
current_row zero = none
current_row (suc n) = some n

-- What `strncpy` copies of a value
pub c_string : Text → Text
c_string [] = []
c_string (c ∷ s) = if nat_beq c 0 then [] else c ∷ c_string s

-- `paramValues`: an empty string becomes a null pointer.
pub param_values : List Text → List (Option Text)
param_values [] = []
param_values ([] ∷ prms) = none ∷ param_values prms
param_values ((c ∷ s) ∷ prms) = some (c_string (c ∷ s)) ∷ param_values prms

-- The checks of the answer of `PQexecPrepared`; `none` is a null pointer.
pub accept : Option PgResult → Result Recordset
accept none = throws runtime_error
accept (some r) =
    if r.is_good
    then elim (r.nfields) [
      | none ↦ throws runtime_error
      | some count ↦
          ok (record { result = r; fields_count = count; has_next = true; rows_read = 0 })
    ]
    else throws runtime_error

-- The constructor, with whether the two pointers are there, and `PQexecPrepared` of the connection
pub open_recordset :
    Bool
    → Bool
    → (Text → List (Option Text) → Option PgResult)
    → Text
    → List Text
    → Result Recordset
open_recordset connection holder exec_prepared name parameters =
    throw_if (not connection) invalid_argument
    >> (throw_if (not holder) invalid_argument >> elim name [
      | [] ↦ throws invalid_argument
      | c ∷ s ↦ accept (exec_prepared (c ∷ s) (param_values parameters))
    ])

-- `Read`
pub read : Recordset → Bool × Recordset
read r =
    if not r.has_next
    then (false, r)
    else (if leb r.result.ntuples r.rows_read
        then (false, record r { has_next = false })
        else (true, record r { rows_read = r.rows_read + 1 }))

-- `CheckIndex`
pub check_index : Recordset → ℕ → Result (Unit {0})
check_index r index =
    throw_if (nat_beq r.fields_count 0) invalid_argument
    >> throw_if (leb r.fields_count index) invalid_argument

-- `IsNull`
pub is_null : Recordset → ℕ → Result Bool
is_null r index = do u ← check_index r index; ok (r.result.is_null (current_row r.rows_read) index)

-- A pointer to a C string that must not be null
pub not_null : Option Text → Result Text
not_null none = throws runtime_error
not_null (some s) = ok s

-- `GetFieldName`
pub get_field_name : Recordset → ℕ → Result Text
get_field_name r index = do u ← check_index r index; not_null (r.result.fname index)

-- `GetFieldIndex`
pub get_field_index : Recordset → Text → Result ℕ
get_field_index r [] = throws invalid_argument
get_field_index r (c ∷ s) = elim (r.result.fnumber (c ∷ s)) [
  | none ↦ throws runtime_error
  | some index ↦ ok index
]

-- `GetAsString`
pub get_as_string : Recordset → ℕ → Result Text
get_as_string r index = do
  null ← is_null r index
  if null then throws logic_error else not_null (r.result.value (current_row r.rows_read) index)

-- The function `try` block of the conversions
pub as_runtime_error {ℓ} : {A : Type ℓ} → Result A → Result A
as_runtime_error (ok a) = ok a
as_runtime_error (throws non_standard) = throws non_standard
as_runtime_error (throws e) = throws runtime_error

-- `GetAsInt32`, `GetAsInt64` and `GetAsDouble`, with `stoi`, `stoll` or `stod` as `parse`
pub get_as {ℓ} : {A : Type ℓ} → (Text → Result A) → Recordset → ℕ → Result A
get_as parse r index = as_runtime_error (get_as_string r index >>= parse)
