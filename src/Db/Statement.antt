-- ===== src/Db/Statement.antt =====
-- `Statement` of src/mif/db/postgresql/detail/statement.cpp. What libpq answers is a parameter.
pub mod Prepared
mod Tests
use mif.Prelude.{
  nat_beq, if◌then◌else◌, invalid_argument, runtime_error, Result, ok, throws, ◌>>=◌, throw_if,
  Bool, true, false, not, Option, none, some, List, [], ◌∷◌, ◌++◌, ◌>>◌, bytes_eq, nat_eq,
}
use mif.Db.Recordset.{Text, PgResult, Recordset, open_recordset}

-- What a statement has the server do: `PQprepare` of a name and a query, and `DEALLOCATE` of a name
pub data Request : Type 0 where
  prepare : Text → Text → Request
  deallocate : Text → Request

-- `boost::algorithm::erase_all(m_name, "-")`
pub erase_dashes : Text → Text
erase_dashes [] = []
erase_dashes (c ∷ s) = let rest = erase_dashes s in if nat_beq c b'-' then rest else c ∷ rest

-- "mif_ps_" and the generated id
pub statement_name : Text → Text
unfolding erase_dashes
statement_name uuid = erase_dashes ((b'm' ∷ b'i' ∷ b'f' ∷ b'_' ∷ b'p' ∷ b's' ∷ b'_' ∷ []) ++ uuid)

-- `ResultPtr` with a status that is checked: a null pointer, or whether the status is good
pub accept_command : Option Bool → Result (Unit {0})
accept_command none = throws runtime_error
accept_command (some good) = throw_if (not good) runtime_error

pub record Statement : Type 0 where
  pub name : Text

-- The constructor, with whether the two pointers are there and the id that was generated; the
-- server is asked only after the checks.
pub construct :
    Bool → Bool → (Request → Option Bool) → Text → Text → Result Statement × List Request
construct false holder server uuid query = (throws invalid_argument, [])
construct true false server uuid query = (throws invalid_argument, [])
construct true true server uuid [] = (throws invalid_argument, [])
construct true true server uuid (c ∷ query) =
    let asked = prepare (statement_name uuid) (c ∷ query) in
    (
      accept_command (server asked) >>= (λ u. ok (record { name = statement_name uuid })),
      asked ∷ [],
    )

-- The destructor: an error is caught and logged.
pub destroy : Statement → List Request
destroy s = deallocate (s.name) ∷ []

-- `Execute`; the statement itself is the recordset's holder.
pub execute :
    Bool → (Text → List (Option Text) → Option PgResult) → Statement → List Text → Result Recordset
execute connection exec_prepared s parameters =
    open_recordset connection true exec_prepared s.name parameters

-- The life of a statement that is constructed, executed any number of times and destroyed: the
-- requests to the server besides the executions. An object whose constructor throws has no
-- destructor.
pub lifetime : Bool → Bool → (Request → Option Bool) → Text → Text → List Request
lifetime connection holder server uuid query =
    let (made, asked) = construct connection holder server uuid query in
    elim made [ ok s ↦ asked ++ destroy s | throws e ↦ asked ]
