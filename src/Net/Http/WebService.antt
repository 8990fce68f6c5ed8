-- ===== src/Net/Http/WebService.antt =====
-- `WebService` of src/mif/net/http/web_service.cpp and include/mif/net/http/web_service.h: the choice
-- of a handler, the call, the statistics and the answer to an exception.
pub mod Choice
pub mod Counts
mod Tests
use mif.Prelude.{
  ltb, nat_beq, if◌then◌else◌, ◌==◌, Exception, invalid_argument, non_standard, Result, ok, throws,
  ℕ, ◌+◌, ◌%◌, ◌^◌, Bool, true, false, ◌&&◌, ◌||◌, Option, none, some, List, [], ◌∷◌, bytes_eq,
  nat_eq,
}
use mif.Prelude.Map.{emplace}
use mif.Net.Http.Codes.{Code, bad_method, bad_request, internal}
use mif.Net.Http.Routing.{UrlPath, slash, process}

-- `operator <` of `std::string`, the order of the maps' keys
unfoldable pub bytes_lt : UrlPath → UrlPath → Bool
bytes_lt s [] = false
bytes_lt [] (d ∷ t) = true
bytes_lt (c ∷ s) (d ∷ t) = ltb c d || (nat_beq c d && bytes_lt s t)

pub is_prefix : UrlPath → UrlPath → Bool
is_prefix [] s = true
is_prefix (c ∷ k) [] = false
is_prefix (c ∷ k) (d ∷ s) = nat_beq c d && is_prefix k s

-- `path.find(i) != std::string::npos`
pub contains : UrlPath → UrlPath → Bool
unfolding is_prefix
contains [] i = is_prefix i []
contains (c ∷ path) i = is_prefix i (c ∷ path) || contains path i

-- `std::count(begin(i), end(i), '/')`
pub slashes : UrlPath → ℕ
slashes [] = 0
slashes (c ∷ i) = (if nat_beq c slash then 1 else 0) + slashes i

-- `ItemCounter`
pub record ItemCounter : Type 0 where
  pub total : ℕ
  pub bad : ℕ

pub record Statistics : Type 0 where
  pub general : ItemCounter
  pub resources : List (UrlPath × ItemCounter)

abbrev pub no_calls : ItemCounter
no_calls = record { total = 0; bad = 0 }

-- `++c.total` and `++c.bad`, of an `unsigned long long`
pub add_total : ItemCounter → ItemCounter
add_total c = record { total = (c.total + 1) % 2 ^ 64; bad = c.bad }

pub add_bad : ItemCounter → ItemCounter
add_bad c = record { total = c.total; bad = (c.bad + 1) % 2 ^ 64 }

-- `m_statistics.resources[path]`, changed by `f`; a counter that is missing is made.
pub at_resource :
    (ItemCounter → ItemCounter)
    → UrlPath
    → List (UrlPath × ItemCounter)
    → List (UrlPath × ItemCounter)
at_resource f path [] = (path, f no_calls) ∷ []
at_resource f path ((j, c) ∷ m) =
    if j == path
    then (j, f c) ∷ m
    else (if bytes_lt path j
        then (path, f no_calls) ∷ (j, c) ∷ m
        else (j, c) ∷ at_resource f path m)

-- The text of an answer to an exception
pub data Text : Type 0 where
  handler_not_found unknown_exception : Text
  what : Exception → Text

-- The data of a response: what a handler made, or the text of an exception
pub data Data {ℓ} (Out : Type ℓ) : Type ℓ where
  made : Out → Data Out
  message : Text → Data Out

pub record Response {ℓ} (Out : Type ℓ) : Type ℓ where
  pub code : Code
  pub data_of : Data Out

module _ {ℓ} {H : Type ℓ} (handlers : List (UrlPath × H)) where
  -- A round of the loop over the paths, on `iter` and `cntLen`
  pub visit : UrlPath → UrlPath → Option (UrlPath × H) × ℕ → Option (UrlPath × H) × ℕ
  visit path i (iter, cnt_len) =
      if contains path i && ltb cnt_len (slashes i)
      then elim (process handlers i) [
        | some found ↦ (some found, slashes i)
        | none ↦ (none, cnt_len)
      ]
      else (iter, cnt_len)

  pub search : UrlPath → List (UrlPath × H) → Option (UrlPath × H) × ℕ → Option (UrlPath × H) × ℕ
  search path [] state = state
  search path ((i, h) ∷ rest) state = search path rest (visit path i state)

  -- The handler that `OnRequest` calls, with its key. The set of the paths is in the map's order.
  pub find_handler : UrlPath → Option (UrlPath × H)
  find_handler path = elim (process handlers path) [
    | some found ↦ some found
    | none ↦ (search path handlers (none, 0)).0
  ]

-- `OnExceptionResponse`, with the `OnException` of the class, which changes nothing
pub on_exception_response {ℓ} : {Out : Type ℓ} → Code → Text → Response Out → Response Out
on_exception_response code text response = record { code = code; data_of = message text }

-- A handler is called with the request and the response; it may throw after it changed the response.
abbrev pub Handler {ℓ κ} : Type ℓ → Type κ → Type (ℓ ⊔ κ)
Handler Request Out = Request → Response Out → Result (Unit {0}) × Response Out

-- What a service is made of: its handlers and the methods that a derived class overrides
pub record WebService {ℓ κ} (Request : Type ℓ) (Out : Type κ) : Type (ℓ ⊔ κ) where
  pub handlers : List (UrlPath × Handler Request Out)
  pub pre_process_request : Request → Result (Unit {0})
  pub post_process_response : Handler Request Out

-- `AddHandler`
pub add_handler {ℓ κ} :
    {Request : Type ℓ} {Out : Type κ}
    → UrlPath
    → Handler Request Out
    → List (UrlPath × Handler Request Out)
    → Statistics
    → List (UrlPath × Handler Request Out) × Statistics
add_handler resource handler handlers s = (
  emplace bytes_lt resource handler handlers,
  record { general = s.general; resources = at_resource (λ c. c) resource s.resources },
)

-- The counters of a resource after its handler was called
pub counted :
    UrlPath → Result (Unit {0}) → List (UrlPath × ItemCounter) → List (UrlPath × ItemCounter)
counted p (ok u) resources = at_resource add_total p resources
counted p (throws e) resources = at_resource add_bad p (at_resource add_total p resources)

module _ {ℓ κ} {Request : Type ℓ} {Out : Type κ} (path : Request → UrlPath) where
  -- The call of the handler that was found
  pub call :
      Request
      → Response Out
      → Statistics
      → Option (UrlPath × Handler Request Out)
      → Result (Unit {0}) × Response Out × Statistics
  call request response s none = (
    ok tt,
    on_exception_response bad_method handler_not_found response,
    record { general = add_bad s.general; resources = s.resources },
  )
  call request response s (some (k, h)) =
      let (r, changed) = h request response in
      (r, changed, record { general = s.general; resources = counted (path request) r s.resources })

  -- `PostProcessResponse`, where nothing was thrown before
  pub post_process :
      WebService Request Out
      → Request
      → Result (Unit {0}) × Response Out × Statistics
      → Result (Unit {0}) × Response Out × Statistics
  post_process service request (ok u, response, s) =
      let (r, changed) = service.post_process_response request response in (r, changed, s)
  post_process service request (throws e, response, s) = (throws e, response, s)

  -- The body of the `try`, after `PreProcessRequest`
  pub attempt :
      WebService Request Out
      → Request
      → Response Out
      → Statistics
      → Result (Unit {0})
      → Result (Unit {0}) × Response Out × Statistics
  attempt service request response s (throws e) = (throws e, response, s)
  attempt service request response s (ok u) = post_process service request (
      call request response (record { general = add_total s.general; resources = s.resources })
        (find_handler service.handlers (path request)))

  -- The `catch` clauses
  pub caught : Result (Unit {0}) × Response Out × Statistics → Response Out × Statistics
  caught (ok u, response, s) = (response, s)
  caught (throws invalid_argument, response, s) = (
    on_exception_response bad_request (what invalid_argument) response,
    record { general = add_bad s.general; resources = s.resources },
  )
  caught (throws non_standard, response, s) = (
    on_exception_response internal unknown_exception response,
    record { general = add_bad s.general; resources = s.resources },
  )
  caught (throws e, response, s) = (
    on_exception_response internal (what e) response,
    record { general = add_bad s.general; resources = s.resources },
  )

  -- `OnRequest`
  pub on_request :
      WebService Request Out → Request → Response Out → Statistics → Response Out × Statistics
  on_request service request response s =
      caught (attempt service request response s (service.pre_process_request request))
