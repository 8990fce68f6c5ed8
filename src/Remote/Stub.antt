-- ===== src/Remote/Stub.antt =====
-- Stubs: `Stub` and `FunctionWrap` of include/mif/remote/detail/ps.h, and the classes that the
-- macros of include/mif/remote/ps.h make, which stand in a chain. `S` is the state of the services.
use mif.Prelude.{
  if◌then◌else◌, ◌==◌, ℕ, Bool, false, not, ◌||◌, Option, none, some, List, [], ◌∷◌, ◌++◌, bytes_eq,
  nat_eq,
}
use mif.Serialization.Json.{Members, Outcome, fails, done, Library}
use mif.Serialization.Json.Shapes.{Shape, Shapes, no_shapes, shape, El, Els}
use mif.Remote.Errors.{
  Error, Reply, raises, returns, no_method, not_supported, no_cast, what, lift, ◌>>=◌, ◌>>◌,
  raise_if,
}
use mif.Remote.Packet.{get_text, get_params, put_params, put_exception, interface_key, method_key}

-- A method that is `void` has no shape of its result.
abbrev pub Value : Option Shape → Type 0
Value none = Unit
Value (some s) = El s

pub record Method (S : Type 0) : Type 0 where
  pub name : List ℕ
  -- whether `Service::Cast` of the instance gives the interface that the method is of
  pub is_offered : S → Bool
  pub params : Shapes
  pub result : Option Shape
  pub body : S → Els params → S × Reply (Value result)

-- An interface with its methods, the one declared last first: this is the order of the classes.
pub record Interface (S : Type 0) : Type 0 where
  pub id : List ℕ
  pub methods : List (Method S)

-- The interface of a stub, and after it the inherited ones
abbrev pub Chain : Type 0 → Type 0
Chain S = List (Interface S)

module _ {S : Type 0} where
  unfoldable pub contain_interface_id : Chain S → List ℕ → Bool
  contain_interface_id [] id = false
  contain_interface_id (interface ∷ chain) id = interface.id == id || contain_interface_id chain id

  -- The methods in the order in which `InvokeMethod` compares their names
  unfoldable pub all_methods : Chain S → List (Method S)
  all_methods [] = []
  all_methods (interface ∷ chain) = interface.methods ++ all_methods chain

  -- The first method of the name
  unfoldable pub find_method : List ℕ → List (Method S) → Option (Method S)
  find_method name [] = none
  find_method name (method ∷ methods) =
      if method.name == name then some method else find_method name methods

  -- The method of the instance, and before it the cast
  abbrev pub performed :
      (method : Method S) → S → Els method.params → S × Reply (Value method.result)
  performed method s params =
      if method.is_offered s then method.body s params else (s, raises no_cast)

-- `FunctionWrap::Call`
unfoldable pub pack_result :
    Library → (result : Option Shape) → Value result → Members → Outcome Members
pack_result lib none value response = done response
pack_result lib (some s) value response = put_params lib (shape s no_shapes) (value, tt) response

module _ (lib : Library) {S : Type 0} where
  abbrev pub packed :
      (result : Option Shape) → S × Reply (Value result) → Members → S × Reply Members
  packed result (s, raises e) response = (s, raises e)
  packed result (s, returns value) response = (s, lift (pack_result lib result value response))

  unfoldable pub invoke_real_method : Method S → S → Members → Members → S × Reply Members
  unfolding pack_result
  invoke_real_method method s request response =
      if method.is_offered s
      then elim (get_params lib method.params request) [
        | fails e ↦ (s, lift (fails e))
        | done params ↦ packed method.result (method.body s params) response
      ]
      else (s, raises no_cast)

  -- `InvokeMethod` along the chain: the name alone chooses, whatever the interface of the request.
  unfoldable pub invoke_method : Chain S → List ℕ → S → Members → Members → S × Reply Members
  unfolding invoke_real_method find_method all_methods
  invoke_method chain name s request response = elim (find_method name (all_methods chain)) [
    | none ↦ (s, raises no_method)
    | some method ↦ invoke_real_method method s request response
  ]

  -- The guards of `Call`, and the method to call
  unfoldable pub checked_method : Chain S → Members → Reply (List ℕ)
  checked_method chain request = do
    interface ← lift (get_text lib interface_key request)
    raise_if (not (contain_interface_id chain interface)) not_supported
    lift (get_text lib method_key request)

  -- `catch (...)`
  abbrev pub caught : (Error → List ℕ) → Members → S × Reply Members → S × Members
  caught texts response (s, raises e) = (s, put_exception lib (what texts e) response)
  caught texts response (s, returns filled) = (s, filled)

  unfoldable pub call : (Error → List ℕ) → Chain S → S → Members → Members → S × Members
  unfolding checked_method invoke_method
  call texts chain s request response = caught texts response (elim (checked_method chain request) [
    | raises e ↦ (s, raises e)
    | returns name ↦ invoke_method chain name s request response
  ])
