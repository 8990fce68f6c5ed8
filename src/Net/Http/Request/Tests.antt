-- ===== src/Net/Http/Request/Tests.antt =====
-- Requests at concrete inputs.
use mif.Prelude.{ok, length, ℕ, ◌≡◌, refl, ◌↔◌, true, false, some, [], ◌∷◌, bytes_eq, nat_eq}
use mif.Prelude.Map.{lookup}
use mif.Net.Http.Url.{decode_url, scan_hex}
use mif.Net.Http.Codes.{get, get_method, to_method}
use mif.Net.Http.Target.{target}
use mif.Net.Http.Routing.{process, route}
use mif.Net.Http.Request.{
  Request, error, handled, bad_path, Params, handle_request, is_bad_path, has_dots, try_request,
  caught, check_method, check_handlers, dispatch, input_target, call_handler,
}
use mif.Net.Http.Request.Guards.{Admitted, handle_request_iff}

-- A server with one handler, at "/a", that answers the length of the body; only GET is allowed.
abbrev params : Params ℕ
params = record {
  allowed_methods = λ m. elim m [ get_method ↦ true | _ ↦ false ];
  handlers = (b'/' ∷ b'a' ∷ [], λ r. ok (length (r.body))) ∷ [];
}

-- "/a?q"
abbrev good_request : Request
good_request = record {
  target = b'/' ∷ b'a' ∷ b'?' ∷ b'q' ∷ [];
  method = get;
  keep_alive = true;
  body = 7 ∷ 8 ∷ [];
}

-- "/.%2e/a"
abbrev sly_request : Request
sly_request = record good_request { target = b'/' ∷ b'.' ∷ b'%' ∷ b'2' ∷ b'e' ∷ b'/' ∷ b'a' ∷ [] }

handle_request-sly : handle_request params sly_request ≡ some (error 400 bad_path true)
unfolding handle_request is_bad_path has_dots decode_url scan_hex target to_method route process
    lookup try_request caught check_method check_handlers dispatch input_target call_handler
handle_request-sly = refl

handle_request-good : handle_request params good_request ≡ some (handled 2 true)
unfolding handle_request is_bad_path has_dots decode_url scan_hex target to_method route process
    lookup try_request caught check_method check_handlers dispatch input_target call_handler
handle_request-good = refl

handle_request_iff_example :
    (handle_request params good_request ≡ some (handled 2 true))
    ↔ (Admitted params good_request 2 × (true ≡ true))
handle_request_iff_example = handle_request_iff params good_request 2 true
