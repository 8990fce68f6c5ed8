-- ===== src/Net/Http/WebService/Counts.antt =====
-- The statistics of src/mif/net/http/web_service.cpp.
use mif.Prelude.{
  Bool-cases, ◌==◌, Exception, invalid_argument, logic_error, runtime_error, out_of_range,
  non_standard, Result, ok, throws, All, bytes_beq_iff, ℕ, ◌+◌, ◌-◌, ◌^◌, ◌≤◌, ◌<◌, ◌≡◌, refl, inl,
  inr, Option, none, some, List, [], ◌∷◌, arith, bytes_eq, nat_eq,
}
use mif.Net.Http.Routing.{UrlPath}
use mif.Net.Http.WebService.{
  ItemCounter, Statistics, Response, Handler, WebService, no_calls, add_total, add_bad, at_resource,
  counted, call, post_process, attempt, caught, on_request, find_handler, bytes_lt,
}

abbrev pub IsCounter : UrlPath × ItemCounter → Type 0
IsCounter e = e.1.bad ≤ e.1.total

abbrev pub totals : List (UrlPath × ItemCounter) → ℕ
totals [] = 0
totals (e ∷ m) = e.1.total + totals m

-- The resources' counters are consistent with each other and with a number of calls.
abbrev pub Within : ℕ → List (UrlPath × ItemCounter) → Type 0
Within n m = All IsCounter m × (totals m ≤ n)

abbrev Counts : (ItemCounter → ItemCounter) → Type 0
Counts f =
    (c : ItemCounter)
    → c.bad ≤ c.total
    → c.total + 1 < 2 ^ 64
    → ((f c).bad ≤ (f c).total) × ((f c).total ≤ c.total + 1)

at_resource-Within :
    (f : ItemCounter → ItemCounter) (path : UrlPath) (n : ℕ) (m : List (UrlPath × ItemCounter))
    → Counts f
    → n + 1 < 2 ^ 64
    → Within n m
    → Within (n + 1) (at_resource f path m)
unfolding at_resource
at_resource-Within f path n [] k l w =
    ((ground (arith, k no_calls), tt), ground (arith, k no_calls))
at_resource-Within f path n ((j, c) ∷ m) k l w = elim (Bool-cases (j == path)) [
  | inl e ↦ rw e (((k c w.0.0 (omega arith)).0, w.0.1), omega (arith, k c w.0.0 (omega arith)))
  | inr e ↦ elim (Bool-cases (bytes_lt path j)) [
    | inl q ↦
        rw (e, q)
          (
            ((k no_calls (omega arith) (omega arith)).0, w.0),
            omega (arith, k no_calls (omega arith) (omega arith)),
          )
    | inr q ↦
        rw (e, q)
          (let rest =
              at_resource-Within f path (n - c.total) m k (omega arith) (w.0.1, omega arith) in
            ((w.0.0, rest.0), omega (arith, rest.1)))
  ]
]

-- The two changes of a counter at a handler that throws are one.
at_resource-at_resource :
    (f g : ItemCounter → ItemCounter) (path : UrlPath) (m : List (UrlPath × ItemCounter))
    → at_resource g path (at_resource f path m) ≡ at_resource (λ c. g (f c)) path m
unfolding at_resource
at_resource-at_resource f g path [] = rw ((bytes_beq_iff path path).1 refl) refl
at_resource-at_resource f g path ((j, c) ∷ m) = elim (Bool-cases (j == path)) [
  | inl e ↦ rw (e, at_resource, e) refl
  | inr e ↦ elim (Bool-cases (bytes_lt path j)) [
    | inl q ↦ rw (e, q, at_resource, (bytes_beq_iff path path).1 refl) refl
    | inr q ↦ rw (e, q, at_resource, e, q, at_resource-at_resource f g path m) refl
  ]
]

counted-Within :
    (path : UrlPath) (r : Result (Unit {0})) (n : ℕ) (m : List (UrlPath × ItemCounter))
    → n + 1 < 2 ^ 64
    → Within n m
    → Within (n + 1) (counted path r m)
unfolding counted add_total add_bad
counted-Within path (ok u) n m l w =
    at_resource-Within add_total path n m (λ c b s. ground arith) l w
counted-Within path (throws e) n m l w =
    rw (at_resource-at_resource add_total add_bad path m)
      (at_resource-Within (λ c. add_bad (add_total c)) path n m (λ c b s. ground arith) l w)

-- The counters of a service are consistent: no resource has more bad calls than calls, and the
-- resources have no more calls together than the service had requests.
abbrev pub IsConsistent : Statistics → Type 0
IsConsistent s = Within s.general.total s.resources

module _ {ℓ κ} {Request : Type ℓ} {Out : Type κ} (path : Request → UrlPath) where
  call-IsConsistent :
      (request : Request) (response : Response Out) (s : Statistics) (n : ℕ)
      (found : Option (UrlPath × Handler Request Out))
      → n + 1 < 2 ^ 64
      → Within n s.resources
      → s.general.total ≡ n + 1
      → IsConsistent (call path request response s found).2
  unfolding call add_bad
  call-IsConsistent request response s n none l w e = (w.0, omega (arith, w.1))
  call-IsConsistent request response s n (some (k, h)) l w e =
      rw e (counted-Within (path request) (h request response).0 n s.resources l w)

  post_process-IsConsistent :
      (service : WebService Request Out) (request : Request)
      (t : Result (Unit {0}) × Response Out × Statistics)
      → IsConsistent t.2
      → IsConsistent (post_process path service request t).2
  unfolding post_process
  post_process-IsConsistent service request (ok u, response, s) c = c
  post_process-IsConsistent service request (throws e, response, s) c = c

  caught-IsConsistent :
      (t : Result (Unit {0}) × Response Out × Statistics)
      → IsConsistent t.2
      → IsConsistent (caught path t).1
  unfolding caught add_bad
  caught-IsConsistent (ok u, response, s) c = c
  caught-IsConsistent (throws invalid_argument, response, s) c = c
  caught-IsConsistent (throws logic_error, response, s) c = c
  caught-IsConsistent (throws runtime_error, response, s) c = c
  caught-IsConsistent (throws out_of_range, response, s) c = c
  caught-IsConsistent (throws non_standard, response, s) c = c

  attempt-IsConsistent :
      (service : WebService Request Out) (request : Request) (response : Response Out)
      (s : Statistics) (r : Result (Unit {0}))
      → s.general.total + 1 < 2 ^ 64
      → IsConsistent s
      → IsConsistent (attempt path service request response s r).2
  unfolding attempt add_total
  attempt-IsConsistent service request response s (throws e) l c = c
  attempt-IsConsistent service request response s (ok u) l c =
      post_process-IsConsistent service request
        (call path request response
          (record { general = add_total s.general; resources = s.resources })
          (find_handler service.handlers (path request)))
        (call-IsConsistent request response
          (record { general = add_total s.general; resources = s.resources }) s.general.total
          (find_handler service.handlers (path request)) l c (omega arith))

  -- A request keeps the counters consistent, whatever the handlers and the overridden methods
  -- return or throw, as long as the number of requests is no overflow: no resource has more bad
  -- calls than calls, and the resources have together no more calls than there were requests.
  pub on_request-IsConsistent :
      (service : WebService Request Out) (request : Request) (response : Response Out)
      (s : Statistics)
      → s.general.total + 1 < 2 ^ 64
      → IsConsistent s
      → IsConsistent (on_request path service request response s).1
  unfolding on_request
  on_request-IsConsistent service request response s l c =
      caught-IsConsistent
        (attempt path service request response s (service.pre_process_request request))
        (attempt-IsConsistent service request response s (service.pre_process_request request) l c)

-- A request that `PreProcessRequest` rejects is counted as bad but not as a request: if all requests
-- before it were bad, and their number is no overflow, the service has more bad requests than
-- requests after it.
pub on_request-rejected {ℓ κ} :
    {Request : Type ℓ} {Out : Type κ} (path : Request → UrlPath) (service : WebService Request Out)
    (request : Request) (response : Response Out) (s : Statistics) {e : Exception}
    → service.pre_process_request request ≡ throws e
    → s.general.bad ≡ s.general.total
    → s.general.bad + 1 < 2 ^ 64
    → (on_request path service request response s).1.general.total
      < (on_request path service request response s).1.general.bad
unfolding on_request attempt caught add_bad
on_request-rejected path service request response s {e} h b l = rw (h, on_request, attempt) (go e)
  where
    go :
        (x : Exception)
        → (caught path (throws x, response, s)).1.general.total
          < (caught path (throws x, response, s)).1.general.bad
    go invalid_argument = omega arith
    go logic_error = omega arith
    go runtime_error = omega arith
    go out_of_range = omega arith
    go non_standard = omega arith
