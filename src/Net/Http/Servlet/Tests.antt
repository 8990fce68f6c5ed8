-- ===== src/Net/Http/Servlet/Tests.antt =====
-- A servlet at concrete inputs.
use mif.Prelude.{
  nat_beq, if◌then◌else◌, invalid_argument, ok, throws, ℕ, ◌+◌, ◌≡◌, refl, none, some, List, [],
  ◌∷◌, bytes_eq, nat_eq,
}
use mif.Prelude.Map.{lookup, insert, erase, emplace}
use mif.Net.Http.Codes.{ok_code, bad_request}
use mif.Net.Http.WebService.{what}
use mif.Net.Http.ServletSession.{
  Buffer, publishes, closes, Session, OnData, new_session, on_data, prepared, clean_response,
  perform, perform_all, finish, get_exception,
}
use mif.Net.Http.Servlet.{
  Request, Response, on_request, session_id, with_session, find_or_make, found_or_made, continued,
  serve, answered, caught, on_exception_response,
}
use mif.Net.Http.Servlet.Ends.{EndsWell, on_request-EndsWell}

-- A client that counts its calls, publishes twice, and rejects data that begins with 0.
abbrev client_on_data : OnData ℕ
client_on_data n [] = (n, [], ok tt)
client_on_data n (c ∷ rest) =
    if nat_beq c 0
    then (n, closes ∷ [], throws invalid_argument)
    else (n + 1, publishes (c ∷ []) ∷ publishes (9 ∷ []) ∷ [], ok tt)

abbrev session : Session ℕ
session = new_session 100 0

abbrev empty_response : Response
empty_response = record { code = ok_code; content = []; message = none; session = none }

abbrev sessions : List (Buffer × Session ℕ)
sessions = (b'a' ∷ [], session) ∷ (b'b' ∷ [], session) ∷ []

-- A request of the session "a" that is rejected
abbrev rejected : Request
rejected = record { session = some (b'a' ∷ []); content = 0 ∷ [] }

on_request-rejected_test :
    on_request (ok 0) client_on_data 1 130 rejected sessions empty_response ≡ (
      (b'b' ∷ [], session) ∷ [],
      record {
        code = bad_request;
        content = [];
        message = some (what invalid_argument);
        session = none;
      },
    )
unfolding on_request session_id with_session find_or_make found_or_made continued serve on_data
    new_session prepared clean_response perform perform_all finish answered get_exception caught
    on_exception_response lookup insert erase emplace
on_request-rejected_test = refl

on_request-EndsWell_example :
    EndsWell
      (ok 0)
      client_on_data
      (b'a' ∷ [])
      (on_request (ok 0) client_on_data 1 130 rejected sessions empty_response)
on_request-EndsWell_example =
    on_request-EndsWell (ok 0) client_on_data 1 130 rejected sessions empty_response b'a' [] refl
      refl
