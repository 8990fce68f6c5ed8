-- ===== src/Net/Http/Servlet/Sessions.antt =====
-- The sessions of a `Servlet` of src/mif/net/http/servlet.cpp over its requests and its cleaner.
use mif.Prelude.{
  Bool-cases, Option-cases, ◌==◌, invalid_argument, logic_error, runtime_error, out_of_range,
  non_standard, Result, ok, throws, >>=-eq-ok, bytes_beq_iff, ℕ, ◌≡◌, refl, sym, ap, ◌∙◌, ◌≢◌, inl,
  inr, false, Option, none, some, List, [], ◌∷◌, ok-injective, bytes_eq, nat_eq,
}
use mif.Prelude.Map.{lookup, erase, insert, emplace}
use mif.Prelude.Map.Laws.{lookup-erase, lookup-insert, emplace-eq-insert, emplace_present}
use mif.Net.Http.WebService.{bytes_lt}
use mif.Net.Http.ServletSession.{Buffer, Session, OnData, new_session}
use mif.Net.Http.Servlet.{
  Request, Response, session_id, find_or_make, found_or_made, continued, serve, caught,
  with_session, on_request,
}

differ : {k j : Buffer} → j ≢ k → (k == j) ≡ false
differ {k} {j} n = elim (Bool-cases (k == j)) [
  | inl e ↦ absurd (n (sym ((bytes_beq_iff k j).0 e)))
  | inr e ↦ e
]

lookup-erase_other :
    {V : Type 0} (k j : Buffer) (m : List (Buffer × V)) → j ≢ k → lookup j (erase k m) ≡ lookup j m
lookup-erase_other k j m n = rw (lookup-erase k j m, differ n) refl

pub lookup-erase_same :
    {V : Type 0} (k : Buffer) (m : List (Buffer × V)) → lookup k (erase k m) ≡ none
lookup-erase_same k m = rw (lookup-erase k k m, (bytes_beq_iff k k).1 refl) refl

lookup-insert_other :
    {V : Type 0} (k j : Buffer) (v : V) (m : List (Buffer × V))
    → j ≢ k
    → lookup j (insert bytes_lt k v m) ≡ lookup j m
lookup-insert_other k j v m n = rw (lookup-insert bytes_lt k j v m, differ n) refl

pub lookup-insert_same :
    {V : Type 0} (k : Buffer) (v : V) (m : List (Buffer × V))
    → lookup k (insert bytes_lt k v m) ≡ some v
lookup-insert_same k v m = rw (lookup-insert bytes_lt k k v m, (bytes_beq_iff k k).1 refl) refl

lookup-emplace_other :
    {V : Type 0} (k j : Buffer) (v : V) (m : List (Buffer × V))
    → j ≢ k
    → lookup j (emplace bytes_lt k v m) ≡ lookup j m
lookup-emplace_other k j v m n = elim (Option-cases (lookup k m)) [
  | inl e ↦ rw (emplace-eq-insert bytes_lt k v m e) (lookup-insert_other k j v m n)
  | inr (w, e) ↦ rw (emplace_present bytes_lt k v m e) refl
]

session_id-some : (o : Option Buffer) {id : Buffer} → session_id o ≡ ok id → o ≡ some id
unfolding session_id
session_id-some none h = cc
session_id-some (some []) h = cc
session_id-some (some (c ∷ s)) h = ap (λ r. of_result r) h
  where
    of_result : Result Buffer → Option Buffer
    of_result (ok i) = some i
    of_result (throws e) = none

module _ {Client : Type 0} (create : Result Client) (client_on_data : OnData Client) where
  found_or_made-other :
      (now : ℕ) (id j : Buffer) (sessions : List (Buffer × Session Client))
      (o : Option (Session Client)) {s : Session Client} {found : List (Buffer × Session Client)}
      → j ≢ id
      → found_or_made create client_on_data now id sessions o ≡ ok (s, found)
      → lookup j found ≡ lookup j sessions
  unfolding found_or_made
  found_or_made-other now id j sessions (some t) {s} {found} n h =
      ap (λ p. lookup j p.1) (sym (ok-injective (t, sessions) (s, found) h))
  found_or_made-other now id j sessions none {s} {found} n h =
      let (client, e, q) =
        >>=-eq-ok create
          (λ c. ok (new_session now c, emplace bytes_lt id (new_session now c) sessions)) h in
      ap (λ p. lookup j p.1)
        (sym (
          ok-injective
            (new_session now client, emplace bytes_lt id (new_session now client) sessions)
            (s, found) q))
      ∙ lookup-emplace_other id j (new_session now client) sessions n

  caught-other :
      (id j : Buffer) (sessions : List (Buffer × Session Client)) (r : Result (Unit {0}))
      (response : Response)
      → j ≢ id
      → lookup j (caught create client_on_data id sessions r response).0 ≡ lookup j sessions
  unfolding caught
  caught-other id j sessions (ok u) response n = refl
  caught-other id j sessions (throws invalid_argument) response n =
      lookup-erase_other id j sessions n
  caught-other id j sessions (throws logic_error) response n = lookup-erase_other id j sessions n
  caught-other id j sessions (throws runtime_error) response n = lookup-erase_other id j sessions n
  caught-other id j sessions (throws out_of_range) response n = lookup-erase_other id j sessions n
  caught-other id j sessions (throws non_standard) response n = lookup-erase_other id j sessions n

  continued-other :
      (thread now : ℕ) (id j : Buffer) (request : Request)
      (sessions : List (Buffer × Session Client)) (response : Response)
      (r : Result (Session Client × List (Buffer × Session Client)))
      → j ≢ id
      → ((s : Session Client) (found : List (Buffer × Session Client))
          → r ≡ ok (s, found)
          → lookup j found ≡ lookup j sessions)
      → lookup j (continued create client_on_data thread now id request sessions response r).0
        ≡ lookup j sessions
  unfolding continued
  continued-other thread now id j request sessions response (throws e) n k =
      caught-other id j sessions (throws e) response n
  continued-other thread now id j request sessions response (ok (s, found)) n k =
      let (r, after, answer) =
        serve create client_on_data thread now id request.content s response in
      caught-other id j (insert bytes_lt id after found) r answer n
      ∙ lookup-insert_other id j after found n
      ∙ k s found refl

  -- A request touches the session that it names and no other, also where it fails.
  pub on_request-other :
      (thread now : ℕ) (request : Request) (sessions : List (Buffer × Session Client))
      (response : Response) (j : Buffer)
      → request.session ≢ some j
      → lookup j (on_request create client_on_data thread now request sessions response).0
        ≡ lookup j sessions
  unfolding on_request with_session find_or_make
  on_request-other thread now request sessions response j n = go (session_id request.session) refl
    where
      go :
          (r : Result Buffer)
          → session_id request.session ≡ r
          → lookup j (on_request create client_on_data thread now request sessions response).0
            ≡ lookup j sessions
      go (throws e) h = rw (h, on_request) refl
      go (ok id) h =
          rw (h, on_request)
            (continued-other thread now id j request sessions response
              (found_or_made create client_on_data now id sessions (lookup id sessions)) other
              (λ s found f. found_or_made-other now id j sessions (lookup id sessions) other f))
        where
          other : j ≢ id
          other e = n (session_id-some request.session h ∙ ap some (sym e))
