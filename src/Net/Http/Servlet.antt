-- ===== src/Net/Http/Servlet.antt =====
-- `Servlet` of src/mif/net/http/servlet.cpp: the sessions of a server, its requests and its cleaner.
pub mod Sessions
pub mod Ends
pub mod Cleaner
mod Tests
use mif.Prelude.{
  leb, if◌then◌else◌, invalid_argument, non_standard, Result, ok, throws, ℕ, ◌+◌, Bool, ◌||◌,
  Option, none, some, List, [], ◌∷◌, ◌>>=◌, ◌>>◌, bytes_eq, nat_eq,
}
use mif.Prelude.Map.{lookup, erase, insert, emplace}
use mif.Net.Http.Codes.{Code, bad_request, internal}
use mif.Net.Http.WebService.{bytes_lt, Text, what, unknown_exception}
use mif.Net.Http.ServletSession.{Buffer, Session, OnData, new_session, on_data, get_exception}

-- What of a request the servlet reads: the header of the session, and the data
pub record Request : Type 0 where
  pub session : Option Buffer
  pub content : Buffer

-- What it writes: the code, the data or the text of an exception, and the header of the session
pub record Response : Type 0 where
  pub code : Code
  pub content : Buffer
  pub message : Option Text
  pub session : Option Buffer

-- The id of the session, from what the headers have
pub session_id : Option Buffer → Result Buffer
session_id none = throws invalid_argument
session_id (some []) = throws invalid_argument
session_id (some (c ∷ id)) = ok (c ∷ id)

-- `OnExceptionResponse`
pub on_exception_response : Code → Text → Response → Response
on_exception_response code text response = record response {
  code = code;
  content = [];
  message = some text;
}

module _ {Client : Type 0} (create : Result Client) (client_on_data : OnData Client) where
  -- A session is found by its id, or made by the factory and put into the map.
  pub found_or_made :
      ℕ
      → Buffer
      → List (Buffer × Session Client)
      → Option (Session Client)
      → Result (Session Client × List (Buffer × Session Client))
  found_or_made now id sessions (some s) = ok (s, sessions)
  found_or_made now id sessions none = do
    client ← create
    ok (new_session now client, emplace bytes_lt id (new_session now client) sessions)

  pub find_or_make :
      ℕ
      → Buffer
      → List (Buffer × Session Client)
      → Result (Session Client × List (Buffer × Session Client))
  find_or_make now id sessions = found_or_made now id sessions (lookup id sessions)

  -- The end of `OnRequest` without an exception of `OnData`: the session goes on, or it is to be closed.
  pub answered :
      ℕ
      → Buffer
      → Session Client
      → Buffer
      → Response
      → Result (Unit {0}) × Session Client × Response
  answered thread id s reply response =
      if s.need_for_close
      then elim (get_exception thread s).0 [
        | none ↦ (ok tt, (get_exception thread s).1, record response { content = reply })
        | some e ↦ (throws e, (get_exception thread s).1, record response { content = reply })
      ]
      else (ok tt, s, record response { content = reply; session = some id })

  -- The use of the session that was found
  pub serve :
      ℕ
      → ℕ
      → Buffer
      → Buffer
      → Session Client
      → Response
      → Result (Unit {0}) × Session Client × Response
  serve thread now id [] s response = (throws invalid_argument, s, response)
  serve thread now id (c ∷ content) s response =
      let (after, r) = on_data client_on_data thread now (c ∷ content) s in
      elim r [
        | throws e ↦ (throws e, after, response)
        | ok reply ↦ answered thread id after reply response
      ]

  -- The `catch` clauses, with `RemoveSession` of an id that is not empty
  pub caught :
      Buffer
      → List (Buffer × Session Client)
      → Result (Unit {0})
      → Response
      → List (Buffer × Session Client) × Response
  caught id sessions (ok u) response = (sessions, response)
  caught id sessions (throws invalid_argument) response =
      (erase id sessions, on_exception_response bad_request (what invalid_argument) response)
  caught id sessions (throws non_standard) response =
      (erase id sessions, on_exception_response internal unknown_exception response)
  caught id sessions (throws e) response =
      (erase id sessions, on_exception_response internal (what e) response)

  -- The rest of a request; the session's object is the one of the map.
  pub continued :
      ℕ
      → ℕ
      → Buffer
      → Request
      → List (Buffer × Session Client)
      → Response
      → Result (Session Client × List (Buffer × Session Client))
      → List (Buffer × Session Client) × Response
  continued thread now id request sessions response (throws e) =
      caught id sessions (throws e) response
  continued thread now id request sessions response (ok (s, found)) =
      let (r, after, answer) = serve thread now id request.content s response in
      caught id (insert bytes_lt id after found) r answer

  -- `OnRequest` with an id
  pub with_session :
      ℕ
      → ℕ
      → Buffer
      → Request
      → List (Buffer × Session Client)
      → Response
      → List (Buffer × Session Client) × Response
  with_session thread now id request sessions response =
      continued thread now id request sessions response (find_or_make now id sessions)

  -- `OnRequest`
  pub on_request :
      ℕ
      → ℕ
      → Request
      → List (Buffer × Session Client)
      → Response
      → List (Buffer × Session Client) × Response
  on_request thread now request sessions response = elim (session_id request.session) [
    | throws e ↦ (sessions, on_exception_response bad_request (what e) response)
    | ok id ↦ with_session thread now id request sessions response
  ]

-- A session that the cleaner takes: `std::difftime(now, timestamp) >= m_sessionTimeout`
pub is_expired : {Client : Type 0} → ℕ → ℕ → Session Client → Bool
is_expired timeout now s = s.need_for_close || leb (s.timestamp + timeout) now

-- `OnCleaner`
pub on_cleaner :
    {Client : Type 0} → ℕ → ℕ → List (Buffer × Session Client) → List (Buffer × Session Client)
on_cleaner timeout now [] = []
on_cleaner timeout now ((id, s) ∷ sessions) =
    let rest = on_cleaner timeout now sessions in
    if is_expired timeout now s then rest else (id, s) ∷ rest
