-- ===== src/Net/Http/WebService/Tests.antt =====
-- A web service at concrete inputs.
use mif.Prelude.{
  invalid_argument, runtime_error, ok, throws, length, ℕ, ◌≡◌, refl, List, [], ◌∷◌, arith, bytes_eq,
  nat_eq,
}
use mif.Prelude.Map.{lookup}
use mif.Net.Http.Codes.{ok_code, bad_request}
use mif.Net.Http.Routing.{UrlPath, process}
use mif.Net.Http.WebService.{
  Statistics, Response, Handler, WebService, made, message, what, no_calls, on_request,
  find_handler, attempt, search, visit, contains, is_prefix, slashes, call, post_process, caught,
  on_exception_response,
}
use mif.Net.Http.WebService.Choice.{IsChoice, find_handler-IsChoice}
use mif.Net.Http.WebService.Counts.{IsConsistent, on_request-IsConsistent}

-- Handlers at "/a" and at "/a/b"; the second throws.
abbrev works : Handler UrlPath ℕ
works path response = (ok tt, record { code = ok_code; data_of = made (length path) })

abbrev fails : Handler UrlPath ℕ
fails path response = (throws invalid_argument, response)

abbrev table : List (UrlPath × Handler UrlPath ℕ)
table = (b'/' ∷ b'a' ∷ [], works) ∷ (b'/' ∷ b'a' ∷ b'/' ∷ b'b' ∷ [], fails) ∷ []

abbrev service : WebService UrlPath ℕ
service = record {
  handlers = table;
  pre_process_request = λ path. elim path [ [] ↦ throws runtime_error | c ∷ s ↦ ok tt ];
  post_process_response = λ path response. (ok tt, response);
}

abbrev empty_response : Response ℕ
empty_response = record { code = ok_code; data_of = made 0 }

abbrev no_statistics : Statistics
no_statistics = record { general = no_calls; resources = [] }

-- "/x/a/b": both keys stand in the path, and the second has more slashes.
abbrev deep : UrlPath
deep = b'/' ∷ b'x' ∷ b'/' ∷ b'a' ∷ b'/' ∷ b'b' ∷ []

on_request-deep :
    (on_request (λ path. path) service deep empty_response no_statistics).0
    ≡ record { code = bad_request; data_of = message (what invalid_argument) }
unfolding on_request attempt find_handler search visit contains is_prefix slashes process lookup
    call post_process caught on_exception_response
on_request-deep = refl

find_handler-IsChoice_example : IsChoice table deep (find_handler table deep)
find_handler-IsChoice_example = find_handler-IsChoice table deep

on_request-IsConsistent_example :
    IsConsistent (on_request (λ path. path) service deep empty_response no_statistics).1
on_request-IsConsistent_example =
    on_request-IsConsistent (λ path. path) service deep empty_response no_statistics (omega arith)
      (tt, omega arith)
