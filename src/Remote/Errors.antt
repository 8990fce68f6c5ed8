-- ===== src/Remote/Errors.antt =====
-- What the remote calls throw. The texts of the code's own messages are a parameter of `what`.
use mif.Prelude.{ℕ, ◌≡◌, refl, ◌⊎◌, inl, inr, Bool, true, false, List}
use mif.Serialization.Json.{Failure, Outcome, fails, done}

pub data Error : Type 0 where
  -- a `std::exception` of a service, with its text, and anything else
  thrown : List ℕ → Error
  unknown : Error
  -- what the serializers throw
  serialization : Failure → Error
  -- `std::invalid_argument` of the object manager
  empty_parameter no_instance : Error
  -- `std::runtime_error` of `Service::Cast`
  no_cast : Error
  -- no exception: a null stub that is called, which C++ leaves undefined
  null_stub : Error
  -- `ProxyStubException`, by what it reports
  bad_type bad_instance bad_interface bad_method : Error
  not_supported no_method : Error
  empty_data empty_uuid empty_instance empty_interface empty_method not_unique stub_not_found :
      Error
  no_channel no_channel_not_closed closed_by_server expired : Error
  -- with the error that is passed on
  process_failed call_failed : Error → Error

-- `e.what()` of a `std::exception`
abbrev pub what : (Error → List ℕ) → Error → List ℕ
what texts (thrown message) = message
what texts e = texts e

pub data Reply {ℓ} (R : Type ℓ) : Type ℓ where
  raises : Error → Reply R
  returns : R → Reply R

infixl 5 ◌>>=◌ ◌>>◌
abbrev pub ◌>>=◌ {ℓ κ} : {R : Type ℓ} {S : Type κ} → Reply R → (R → Reply S) → Reply S
raises e >>= next = raises e
returns value >>= next = next value

abbrev pub ◌>>◌ {ℓ} : {S : Type ℓ} → Reply (Unit {0}) → Reply S → Reply S
first >> last = first >>= λ ready. last

-- `if (test) throw e;`
abbrev pub raise_if : Bool → Error → Reply (Unit {0})
raise_if true e = raises e
raise_if false e = returns tt

abbrev pub lift {ℓ} : {R : Type ℓ} → Outcome R → Reply R
lift (fails f) = raises (serialization f)
lift (done x) = returns x

pub Reply-cases {ℓ} :
    {R : Type ℓ} (r : Reply R) → ((e : Error) × (r ≡ raises e)) ⊎ ((x : R) × (r ≡ returns x))
Reply-cases (raises e) = inl (e, refl)
Reply-cases (returns x) = inr (x, refl)
