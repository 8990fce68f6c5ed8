-- ===== src/Net/Http/Request/Guards.antt =====
-- Which requests reach a handler.
use mif.Prelude.{
  if◌then◌else◌, invalid_argument, logic_error, runtime_error, out_of_range, non_standard, Result,
  ok, throws, >>=-eq-ok, ℕ, ◌≡◌, refl, sym, ap, ◌∙◌, ◌≢◌, ◌↔◌, Bool, true, false, Option, none,
  some, List, [], ◌∷◌, arith, bytes_eq, nat_eq,
}
use mif.Net.Http.Url.{decode_url}
use mif.Net.Http.Codes.{Status, Method, to_method}
use mif.Net.Http.Routing.{UrlPath, route}
use mathlib.Core.Path.{subst}
use mif.Prelude.Map.{lookup}
use mif.Net.Http.Routing.Slashes.{Covers}
use mif.Net.Http.Routing.Longest.{Longest, route-Longest}
use mif.Net.Http.Target.{Target, target}
use mif.Net.Http.Request.Paths.{IsGoodPath, is_bad_path_iff}
use mif.Net.Http.Request.{
  Request, Reply, error, handled, input_target, Handler, Params, call_handler, dispatch,
  check_method, check_handlers, try_request, caught, handle_request, Reason, bad_path,
}

-- Without handlers no path leads to one.
route-nil {ℓ} :
    {H : Type ℓ} (path : UrlPath) (found : UrlPath × H) → route {H = H} [] path ≢ some found
unfolding lookup
route-nil {H} path (key, h) e =
    cc ((subst (Longest {H = H} [] (Covers path)) e (route-Longest [] path)).0)

module _ {ℓ} {Out : Type ℓ} (params : Params Out) (r : Request) where
  caught-ok : (reply : Reply Out) → caught params r (ok reply) ≡ some reply
  unfolding caught
  caught-ok reply = refl

  check_handlers-dispatch :
      (hs : List (UrlPath × Handler Out))
      → params.handlers ≡ hs
      → (path : UrlPath) {found : UrlPath × Handler Out} → route params.handlers path ≡ some found
      → check_handlers params r true ≡ dispatch params r
  unfolding check_handlers
  check_handlers-dispatch [] e path {found} routed = absurd (
      route-nil path found
        (ap (λ (hs : List (UrlPath × Handler Out)). route hs path) (sym e) ∙ routed))
  check_handlers-dispatch (h ∷ hs) e path routed = ground arith

  call_handler-handled :
      (o : Option (UrlPath × Handler Out)) (out : Out) (k : Bool)
      → call_handler params r o ≡ ok (handled out k)
      → (key : UrlPath) × (h : Handler Out) × (o ≡ some (key, h)) × (h r ≡ ok out)
  unfolding call_handler
  call_handler-handled none out k e = cc
  call_handler-handled (some (key, h)) out k e =
      let (out', made, same) = >>=-eq-ok (h r) _ e in
      let agree : out' ≡ out = cc in (key, h, refl, made ∙ ap ok agree)

  check_handlers-handled :
      (b : Bool) (out : Out) (k : Bool)
      → check_handlers params r b ≡ ok (handled out k)
      → (b ≡ true) × (dispatch params r ≡ ok (handled out k))
  unfolding check_handlers
  check_handlers-handled false out k e = cc
  check_handlers-handled true out k e = (refl, ground arith)

  check_path-handled :
      (b : Bool) (reply : Result (Reply Out)) (path : Reply Out) (out : Out) (k : Bool)
      → path ≢ handled out k
      → (if b then ok path else reply) ≡ ok (handled out k)
      → (b ≡ false) × (reply ≡ ok (handled out k))
  check_path-handled true reply path out k n e = absurd (n (cc))
  check_path-handled false reply path out k n e = (refl, e)

module _ {ℓ} {Out : Type ℓ} (params : Params Out) (r : Request) where
  -- The handler at the end of a request's way, with what it passed
  pub record Admitted (out : Out) : Type ℓ where
    pub url : List ℕ
    pub decoded : decode_url r.target ≡ ok url
    pub good : IsGoodPath url
    pub method : Method
    pub known : to_method r.method ≡ ok method
    pub allowed : params.allowed_methods method ≡ true
    pub goal : Target
    pub taken_apart : target url ≡ ok goal
    pub key : UrlPath
    pub handler : Handler Out
    pub routed : route params.handlers goal.path ≡ some (key, handler)
    pub made : handler r ≡ ok out

  error-ne-handled :
      (s : Status) (why : Reason) (j k : Bool) (out : Out) → error s why j ≢ handled out k
  error-ne-handled s why j k out e = cc

  -- A request whose reply is a handler's was admitted.
  try_request-Admitted :
      (out : Out) (k : Bool) → try_request params r ≡ ok (handled out k) → Admitted out
  unfolding try_request check_method dispatch input_target
  try_request-Admitted out k e =
      let (url, decoded, e1) = >>=-eq-ok (decode_url r.target) _ e in
      let (good, e2) =
        check_path-handled params r _ _ _ out k (error-ne-handled 400 bad_path r.keep_alive k out)
          e1 in
      let (m, known, e3) = >>=-eq-ok (to_method r.method) _ e2 in
      let (allowed, e4) = check_handlers-handled params r _ out k e3 in
      let (goal, taken, e5) = >>=-eq-ok (input_target r) _ e4 in
      let (url', decoded', apart) = >>=-eq-ok (decode_url r.target) _ taken in
      let (key, h, routed, made) = call_handler-handled params r _ out k e5 in
      let same : url' ≡ url = ground arith in
      record {
        url = url;
        decoded = decoded;
        good = (is_bad_path_iff url).0 good;
        method = m;
        known = known;
        allowed = allowed;
        goal = goal;
        taken_apart = ap target (sym same) ∙ apart;
        key = key;
        handler = h;
        routed = routed;
        made = made;
      }

  -- An admitted request gets what its handler makes.
  Admitted-dispatch : (out : Out) → Admitted out → dispatch params r ≡ ok (handled out r.keep_alive)
  unfolding dispatch call_handler input_target
  Admitted-dispatch out a = rw (a.decoded, a.taken_apart, a.routed, a.made)

  Admitted-try_request :
      (out : Out) → Admitted out → try_request params r ≡ ok (handled out r.keep_alive)
  unfolding try_request check_method check_handlers
  Admitted-try_request out a =
      rw (a.decoded, (is_bad_path_iff a.url).1 a.good, a.known, a.allowed)
        (check_handlers-dispatch params r params.handlers refl a.goal.path a.routed
          ∙ Admitted-dispatch out a)

  caught-handled :
      (res : Result (Reply Out)) (out : Out) (k : Bool)
      → caught params r res ≡ some (handled out k)
      → res ≡ ok (handled out k)
  unfolding caught
  caught-handled (ok reply) out k e = ground arith
  caught-handled (throws non_standard) out k e = cc
  caught-handled (throws invalid_argument) out k e = cc
  caught-handled (throws logic_error) out k e = cc
  caught-handled (throws runtime_error) out k e = cc
  caught-handled (throws out_of_range) out k e = cc

  -- The reply to a request is what a handler made exactly if: the target decodes to a url that
  -- begins with a slash and has no ".." in it, the method is a known and an allowed one, the path
  -- of the url leads to the handler, and the handler does not throw. The reply keeps the connection
  -- as the request asked.
  pub handle_request_iff :
      (out : Out) (k : Bool)
      → (handle_request params r ≡ some (handled out k)) ↔ (Admitted out × (k ≡ r.keep_alive))
  unfolding handle_request
  handle_request_iff out k =
      (λ e. there (caught-handled (try_request params r) out k e), λ a. back a.0 a.1)
    where
      there : try_request params r ≡ ok (handled out k) → Admitted out × (k ≡ r.keep_alive)
      there e =
          let a = try_request-Admitted out k e in
          let both : ok (handled out k) ≡ ok (handled out r.keep_alive) =
            sym e ∙ Admitted-try_request out a in
          (a, cc)

      back :
          Admitted out
          → k ≡ r.keep_alive
          → caught params r (try_request params r) ≡ some (handled out k)
      back a same =
          rw (same, Admitted-try_request out a) (caught-ok params r (handled out r.keep_alive))
