-- ===== src/Net/Http/Servlet/Ends.antt =====
-- How a request to a `Servlet` of src/mif/net/http/servlet.cpp ends.
use mif.Prelude.{
  Exception, invalid_argument, logic_error, runtime_error, out_of_range, non_standard, Result, ok,
  throws, ℕ, ◌≡◌, refl, ◌∙◌, ◌≢◌, none, some, List, [], ◌∷◌, arith, bytes_eq, nat_eq,
}
use mif.Prelude.Map.{lookup, insert}
use mif.Net.Http.Codes.{ok_code}
use mif.Net.Http.WebService.{bytes_lt}
use mif.Net.Http.ServletSession.{Buffer, Session, OnData, on_data}
use mif.Net.Http.Servlet.{
  Request, Response, session_id, on_exception_response, find_or_make, continued, answered, serve,
  caught, with_session, on_request,
}
use mif.Net.Http.Servlet.Sessions.{lookup-erase_same, lookup-insert_same}

module _ {Client : Type 0} (create : Result Client) (client_on_data : OnData Client) where
  -- How a request ends: its session is gone, and the code is one of an error, or it is there.
  abbrev pub EndsWell : Buffer → List (Buffer × Session Client) × Response → Type 0
  EndsWell id after =
      (after.1.code ≡ ok_code → lookup id after.0 ≢ none)
      × (after.1.code ≢ ok_code → lookup id after.0 ≡ none)

  throws-EndsWell :
      (id : Buffer) (sessions : List (Buffer × Session Client)) (e : Exception)
      (response : Response)
      → EndsWell id (caught create client_on_data id sessions (throws e) response)
  unfolding caught on_exception_response
  throws-EndsWell id sessions invalid_argument response =
      ((λ f. cc), λ n. lookup-erase_same id sessions)
  throws-EndsWell id sessions logic_error response = ((λ f. cc), λ n. lookup-erase_same id sessions)
  throws-EndsWell id sessions runtime_error response =
      ((λ f. cc), λ n. lookup-erase_same id sessions)
  throws-EndsWell id sessions out_of_range response =
      ((λ f. cc), λ n. lookup-erase_same id sessions)
  throws-EndsWell id sessions non_standard response =
      ((λ f. cc), λ n. lookup-erase_same id sessions)

  caught-EndsWell :
      (id : Buffer) (sessions : List (Buffer × Session Client)) (r : Result (Unit {0}))
      (response : Response) (s : Session Client)
      → lookup id sessions ≡ some s
      → response.code ≡ ok_code
      → EndsWell id (caught create client_on_data id sessions r response)
  unfolding caught on_exception_response
  caught-EndsWell id sessions (ok u) response s l e = ((λ f g. cc), λ n. absurd (n e))
  caught-EndsWell id sessions (throws e) response s l c = throws-EndsWell id sessions e response

  answered-code :
      (thread : ℕ) (id : Buffer) (s : Session Client) (reply : Buffer) (response : Response)
      → (answered create client_on_data thread id s reply response).2.code ≡ response.code
  unfolding answered
  answered-code thread id s reply response = ground arith

  serve-code :
      (thread now : ℕ) (id content : Buffer) (s : Session Client) (response : Response)
      → (serve create client_on_data thread now id content s response).2.code ≡ response.code
  unfolding serve
  serve-code thread now id [] s response = refl
  serve-code thread now id (c ∷ content) s response =
      go (on_data client_on_data thread now (c ∷ content) s).1 refl
    where
      go :
          (r : Result Buffer)
          → (on_data client_on_data thread now (c ∷ content) s).1 ≡ r
          → (serve create client_on_data thread now id (c ∷ content) s response).2.code
            ≡ response.code
      go (throws e) h = rw (h, serve) refl
      go (ok reply) h =
          rw (h, serve)
            (answered-code thread id (on_data client_on_data thread now (c ∷ content) s).0 reply
              response)

  continued-EndsWell :
      (thread now : ℕ) (id : Buffer) (request : Request) (sessions : List (Buffer × Session Client))
      (response : Response) (r : Result (Session Client × List (Buffer × Session Client)))
      → response.code ≡ ok_code
      → EndsWell id (continued create client_on_data thread now id request sessions response r)
  unfolding continued
  continued-EndsWell thread now id request sessions response (throws e) c =
      throws-EndsWell id sessions e response
  continued-EndsWell thread now id request sessions response (ok (s, found)) c =
      let (r, after, answer) =
        serve create client_on_data thread now id request.content s response in
      caught-EndsWell id (insert bytes_lt id after found) r answer after
        (lookup-insert_same id after found)
        (serve-code thread now id request.content s response ∙ c)

  -- How a request to a session ends, if its response begins with the code `Ok`: with the code `Ok`
  -- the session is there for the next request; with any other code, that of an error, it is gone.
  pub on_request-EndsWell :
      (thread now : ℕ) (request : Request) (sessions : List (Buffer × Session Client))
      (response : Response) (c : ℕ) (id : Buffer)
      → request.session ≡ some (c ∷ id)
      → response.code ≡ ok_code
      → EndsWell (c ∷ id) (on_request create client_on_data thread now request sessions response)
  unfolding on_request session_id with_session
  on_request-EndsWell thread now request sessions response c id h k =
      rw (h, on_request)
        (continued-EndsWell thread now (c ∷ id) request sessions response
          (find_or_make create client_on_data now (c ∷ id) sessions) k)
