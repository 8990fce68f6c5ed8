-- ===== src/Db/Statement/Prepared.antt =====
-- The statements that a server holds for a connection.
use mif.Prelude.{
  Bool-cases, if◌then◌else◌, ◌==◌, All, bytes_beq_iff, ◌≡◌, refl, ◌≢◌, inl, inr, Bool, true, false,
  not, ◌&&◌, Option, none, some, List, [], ◌∷◌, bytes_eq, nat_eq,
}
use mif.Db.Recordset.{Text}
use mif.Serialization.Json.{is_empty}
use mif.Db.Statement.{
  Request, prepare, deallocate, accept_command, construct, destroy, lifetime, statement_name,
}

-- Whether a request succeeds
abbrev pub is_good : Option Bool → Bool
is_good none = false
is_good (some good) = good

-- The names that the server holds after some requests: where it succeeds, `PQprepare` adds one and
-- `DEALLOCATE` takes it away; one that fails changes nothing.
pub remove_name : Text → List Text → List Text
remove_name n [] = []
remove_name n (m ∷ ms) = let rest = remove_name n ms in if m == n then rest else m ∷ rest

abbrev pub held : (Request → Option Bool) → List Request → List Text → List Text
held server [] names = names
held server (prepare n q ∷ rs) names =
    let with = held server rs (n ∷ names) in
    let without = held server rs names in if is_good (server (prepare n q)) then with else without
held server (deallocate n ∷ rs) names =
    let with = held server rs names in
    let without = held server rs (remove_name n names) in
    if is_good (server (deallocate n)) then without else with

remove_name_absent : (n : Text) (ms : List Text) → All (λ m. m ≢ n) ms → remove_name n ms ≡ ms
unfolding remove_name
remove_name_absent n [] a = refl
remove_name_absent n (m ∷ ms) a = elim (Bool-cases (m == n)) [
  | inl e ↦ absurd (a.0 ((bytes_beq_iff m n).0 e))
  | inr e ↦ rw (e, remove_name_absent n ms a.1) refl
]

remove_name_first : (n : Text) (ms : List Text) → All (λ m. m ≢ n) ms → remove_name n (n ∷ ms) ≡ ms
unfolding remove_name
remove_name_first n ms a = rw ((bytes_beq_iff n n).1 refl) (remove_name_absent n ms a)

-- Whether a statement is left at the server: it was prepared, and its `DEALLOCATE` failed, which
-- the destructor only logs.
abbrev pub stays : (Request → Option Bool) → Text → Text → Bool
stays server name query =
    is_good (server (prepare name query)) && not (is_good (server (deallocate name)))

-- If the name of a statement is new to the server, the server holds after the statement's life, also
-- after one whose constructor throws, the names that it held before, and no other one but that of the
-- statement: this one exactly if the pointers are there, the query is not empty, the server prepared
-- it, and its `DEALLOCATE` failed.
pub lifetime-held :
    (connection holder : Bool) (server : Request → Option Bool) (uuid query : Text)
    (names : List Text)
    → All (λ m. m ≢ statement_name uuid) names
    → held server (lifetime connection holder server uuid query) names ≡ (
        if connection && holder && not (is_empty query) && stays server (statement_name uuid) query
        then statement_name uuid ∷ names
        else names)
unfolding lifetime construct destroy accept_command
lifetime-held false holder server uuid query names a = refl
lifetime-held true false server uuid query names a = refl
lifetime-held true true server uuid [] names a = refl
lifetime-held true true server uuid (c ∷ query) names a =
    asked (server (prepare name (c ∷ query))) (server (deallocate name)) refl refl
  where
    name : Text
    name = statement_name uuid

    asked :
        (made dropped : Option Bool)
        → server (prepare name (c ∷ query)) ≡ made
        → server (deallocate name) ≡ dropped
        → held server (lifetime true true server uuid (c ∷ query)) names
          ≡ (if stays server name (c ∷ query) then name ∷ names else names)
    asked none dropped e f = rw (e, lifetime, construct) (rw e refl)
    asked (some false) dropped e f = rw (e, lifetime) (rw e refl)
    asked (some true) none e f = rw (e, lifetime) (rw (e, f) refl)
    asked (some true) (some false) e f = rw (e, lifetime) (rw (e, f) refl)
    asked (some true) (some true) e f =
        rw (e, lifetime) (rw (e, f) (remove_name_first (statement_name uuid) names a))
