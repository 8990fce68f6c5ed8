-- ===== src/Db/Recordset/Fields.antt =====
-- The values of a `Recordset` of src/mif/db/postgresql/detail/recordset.cpp, and its errors.
use mif.Prelude.{
  Exception, invalid_argument, logic_error, runtime_error, out_of_range, non_standard, Result, ok,
  throws, ◌>>=◌, >>=-eq-ok, ℕ, ◌<◌, ◌≡◌, refl, ◌≢◌, ◌↔◌, false, some, arith,
}
use mif.Db.Recordset.{
  Text, Recordset, current_row, check_index, is_null, not_null, get_as_string, as_runtime_error,
  get_as,
}

check_index_iff :
    (r : Recordset) (index : ℕ) → (check_index r index ≡ ok tt) ↔ (index < r.fields_count)
unfolding check_index
check_index_iff r index = ground arith

-- The row has the value `s` in a column: it is no null, and libpq gives its text.
abbrev pub HasValue : Recordset → ℕ → Text → Type 0
HasValue r index s =
    (index < r.fields_count)
    × (r.result.is_null (current_row r.rows_read) index ≡ false)
    × (r.result.value (current_row r.rows_read) index ≡ some s)

-- `GetAsString` gives a text exactly where the column is one of the recordset and the row holds
-- that text in it.
pub get_as_string_iff :
    (r : Recordset) (index : ℕ) (s : Text) → (get_as_string r index ≡ ok s) ↔ HasValue r index s
unfolding get_as_string is_null check_index not_null
get_as_string_iff r index s = ground arith

get_as_string-standard : (r : Recordset) (index : ℕ) → get_as_string r index ≢ throws non_standard
unfolding get_as_string is_null check_index not_null
get_as_string-standard r index = λ h. ground arith

as_runtime_error-throws {ℓ} :
    {A : Type ℓ} (m : Result A) {e : Exception}
    → m ≢ throws non_standard
    → as_runtime_error m ≡ throws e
    → e ≡ runtime_error
unfolding as_runtime_error
as_runtime_error-throws (ok a) n h = cc
as_runtime_error-throws (throws invalid_argument) n h = cc
as_runtime_error-throws (throws logic_error) n h = cc
as_runtime_error-throws (throws runtime_error) n h = cc
as_runtime_error-throws (throws out_of_range) n h = cc
as_runtime_error-throws (throws non_standard) n h = absurd (n refl)

as_runtime_error_iff {ℓ} :
    {A : Type ℓ} (m : Result A) (a : A) → (as_runtime_error m ≡ ok a) ↔ (m ≡ ok a)
unfolding as_runtime_error
as_runtime_error_iff (ok b) a = ((λ h. h), λ h. h)
as_runtime_error_iff (throws invalid_argument) a = ((λ h. cc), λ h. cc)
as_runtime_error_iff (throws logic_error) a = ((λ h. cc), λ h. cc)
as_runtime_error_iff (throws runtime_error) a = ((λ h. cc), λ h. cc)
as_runtime_error_iff (throws out_of_range) a = ((λ h. cc), λ h. cc)
as_runtime_error_iff (throws non_standard) a = ((λ h. cc), λ h. cc)

-- The conversions of a column: they give a value exactly where the row holds a text of that column
-- that the parser takes, and every other outcome is a `runtime_error`, whatever went wrong, if
-- the parser throws standard exceptions only.
pub get_as_iff {ℓ} :
    {A : Type ℓ} (parse : Text → Result A) (r : Recordset) (index : ℕ)
    → ((s : Text) → parse s ≢ throws non_standard)
    → ((a : A)
        → (get_as parse r index ≡ ok a) ↔ ((s : Text) × HasValue r index s × (parse s ≡ ok a)))
      × ((e : Exception) → get_as parse r index ≡ throws e → e ≡ runtime_error)
unfolding get_as
get_as_iff {A = A} parse r index n = ((λ a. (there a, back a)), thrown)
  where
    there :
        (a : A)
        → as_runtime_error (get_as_string r index >>= parse) ≡ ok a
        → (s : Text) × HasValue r index s × (parse s ≡ ok a)
    there a h =
        let (s, e, p) =
          >>=-eq-ok (get_as_string r index) parse
            ((as_runtime_error_iff (get_as_string r index >>= parse) a).0 h) in
        (s, (get_as_string_iff r index s).0 e, p)

    back :
        (a : A)
        → (s : Text) × HasValue r index s × (parse s ≡ ok a)
        → as_runtime_error (get_as_string r index >>= parse) ≡ ok a
    back a (s, v, p) =
        (as_runtime_error_iff (get_as_string r index >>= parse) a).1
          (rw ((get_as_string_iff r index s).1 v) p)

    standard : (m : Result Text) → m ≢ throws non_standard → (m >>= parse) ≢ throws non_standard
    standard (ok s) k = n s
    standard (throws e) k = λ h. k (cc)

    thrown :
        (e : Exception)
        → as_runtime_error (get_as_string r index >>= parse) ≡ throws e
        → e ≡ runtime_error
    thrown e =
        as_runtime_error-throws (get_as_string r index >>= parse)
          (standard (get_as_string r index) (get_as_string-standard r index))
