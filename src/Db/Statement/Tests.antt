-- ===== src/Db/Statement/Tests.antt =====
-- Statements at concrete inputs.
use mif.Prelude.{◌≡◌, refl, ◌≢◌, Bool, true, false, Option, some, [], ◌∷◌, bytes_eq, nat_eq}
use mif.Db.Recordset.{Text}
use mif.Db.Statement.{
  Request, prepare, deallocate, statement_name, erase_dashes, lifetime, construct, destroy,
  accept_command,
}
use mif.Db.Statement.Prepared.{held, lifetime-held}

-- A server that takes everything; an id, and a query
abbrev willing : Request → Option Bool
willing r = some true

abbrev id : Text
id = b'1' ∷ b'-' ∷ b'2' ∷ []

abbrev query : Text
query = b'q' ∷ []

statement_name-id :
    statement_name id ≡ b'm' ∷ b'i' ∷ b'f' ∷ b'_' ∷ b'p' ∷ b's' ∷ b'_' ∷ b'1' ∷ b'2' ∷ []
unfolding statement_name erase_dashes
statement_name-id = refl

lifetime-willing :
    lifetime true true willing id query
    ≡ prepare (statement_name id) query ∷ deallocate (statement_name id) ∷ []
unfolding lifetime construct destroy accept_command
lifetime-willing = refl

is_new : (b'x' ∷ []) ≢ statement_name id
unfolding statement_name erase_dashes
is_new = λ e. cc

-- A server in an aborted transaction: it prepares, but then refuses
abbrev aborted : Request → Option Bool
aborted (prepare name text) = some true
aborted (deallocate name) = some false

lifetime-held_aborted :
    held aborted (lifetime true true aborted id query) ((b'x' ∷ []) ∷ [])
    ≡ statement_name id ∷ (b'x' ∷ []) ∷ []
lifetime-held_aborted = lifetime-held true true aborted id query ((b'x' ∷ []) ∷ []) (is_new, tt)

lifetime-held_example :
    held willing (lifetime true true willing id query) ((b'x' ∷ []) ∷ []) ≡ (b'x' ∷ []) ∷ []
lifetime-held_example = lifetime-held true true willing id query ((b'x' ∷ []) ∷ []) (is_new, tt)
