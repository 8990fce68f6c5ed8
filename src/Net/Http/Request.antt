-- ===== src/Net/Http/Request.antt =====
-- `Session::HandleRequest` of src/mif/net/http/detail/session.cpp: from a request to the reply that
-- is queued.
pub mod Paths
pub mod Guards
mod Tests
use mif.Prelude.{
  nat_beq, if◌then◌else◌, non_standard, Result, ok, throws, ℕ, Bool, true, false, not, ◌&&◌, ◌||◌,
  Option, none, some, List, [], ◌∷◌, ◌>>=◌, ◌>>◌,
}
use mif.Net.Http.Url.{decode_url}
use mif.Net.Http.Codes.{Method, Verb, to_method, Status}
use mif.Net.Http.Routing.{UrlPath, route}
use mif.Net.Http.Target.{Target, target}

pub record Request : Type 0 where
  pub target : List ℕ
  pub method : Verb
  pub keep_alive : Bool
  pub body : List ℕ

-- The texts of `ReplyError`
pub data Reason : Type 0 where
  bad_path method_not_allowed no_handlers no_handler internal_error : Reason

-- What `ReplyError` and `Reply` hand to the queue; `out` is what a handler made of its pack.
pub data Reply {ℓ} (Out : Type ℓ) : Type ℓ where
  error : Status → Reason → Bool → Reply Out
  handled : Out → Bool → Reply Out

-- `path.find("..") != npos`
pub has_dots : List ℕ → Bool
has_dots [] = false
has_dots (a ∷ []) = false
has_dots (a ∷ b ∷ s) = (nat_beq a b'.' && nat_beq b b'.') || has_dots (b ∷ s)

-- `path.empty() || path[0] != '/' || path.find("..") != npos`
pub is_bad_path : List ℕ → Bool
is_bad_path [] = true
is_bad_path (c ∷ s) = not (nat_beq c b'/') || has_dots (c ∷ s)

-- `InputPack`: the target is decoded again, and taken apart.
pub input_target : Request → Result Target
input_target r = do url ← decode_url r.target; target url

-- A handler is called with the request; it gives its pack, or throws.
abbrev pub Handler {ℓ} : Type ℓ → Type ℓ
Handler Out = Request → Result Out

pub record Params {ℓ} (Out : Type ℓ) : Type ℓ where
  pub allowed_methods : Method → Bool
  pub handlers : List (UrlPath × Handler Out)

module _ {ℓ} {Out : Type ℓ} (params : Params Out) where
  -- `handled` and the call of the handler
  pub call_handler : Request → Option (UrlPath × Handler Out) → Result (Reply Out)
  call_handler r none = ok (error 405 no_handler r.keep_alive)
  call_handler r (some (k, h)) = do out ← h r; ok (handled out r.keep_alive)

  pub dispatch : Request → Result (Reply Out)
  dispatch r = do t ← input_target r; call_handler r (route params.handlers t.path)

  -- Whether the method is allowed, and whether there are handlers at all
  pub check_handlers : Request → Bool → Result (Reply Out)
  check_handlers r false = ok (error 405 method_not_allowed r.keep_alive)
  check_handlers r true = elim params.handlers [
    | [] ↦ ok (error 405 no_handlers r.keep_alive)
    | h ∷ hs ↦ dispatch r
  ]

  -- The checks after the one of the path
  pub check_method : Request → Result (Reply Out)
  check_method r = do m ← to_method r.method; check_handlers r (params.allowed_methods m)

  -- The body of the `try`
  pub try_request : Request → Result (Reply Out)
  try_request r = do
    path ← decode_url r.target
    if is_bad_path path then ok (error 400 bad_path r.keep_alive) else check_method r

  -- The `catch` of `std::exception`; `none` is an exception that goes through.
  pub caught : Request → Result (Reply Out) → Option (Reply Out)
  caught r (ok reply) = some reply
  caught r (throws non_standard) = none
  caught r (throws e) = some (error 500 internal_error r.keep_alive)

  -- `HandleRequest`
  pub handle_request : Request → Option (Reply Out)
  handle_request r = caught r (try_request r)
