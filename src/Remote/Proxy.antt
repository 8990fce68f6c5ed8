-- ===== src/Remote/Proxy.antt =====
-- `Proxy::RemoteCall` of include/mif/remote/detail/ps.h (200-306). The sender is an argument.
use mif.Prelude.{◌==◌, ℕ, true, not, Option, none, some, List, bytes_eq, nat_eq}
use mif.Serialization.Json.{Members, Library}
use mif.Serialization.Json.Shapes.{Shape, Shapes, no_shapes, shape, Els}
use mif.Remote.Errors.{
  Error, Reply, raises, returns, unknown, bad_type, bad_instance, bad_interface, bad_method,
  call_failed, lift, raise_if, ◌>>=◌, ◌>>◌,
}
use mif.Remote.Packet.{
  serializer, put_params_if_exists, get_buffer, get_text, get_params, is_response, has_exception,
  get_exception, instance_key, interface_key, method_key,
}
use mif.Remote.Stub.{Value}

-- `ExtractResult`
unfoldable pub extract_result : Library → (result : Option Shape) → Members → Reply (Value result)
extract_result lib none response = returns tt
extract_result lib (some s) response =
    lift (get_params lib (shape s no_shapes) response) >>= λ values. returns values.0

-- The handler of a `std::exception`
abbrev pub wrapped : Error → Error
wrapped unknown = unknown
wrapped e = call_failed e

module _ (lib : Library) where
  -- The checks of a response, and its result
  unfoldable pub accept_response :
      List ℕ → List ℕ → List ℕ → (result : Option Shape) → Members → Reply (Value result)
  unfolding extract_result
  accept_response instance interface method result packet = do
    answers ← lift (is_response lib packet)
    raise_if (not answers) bad_type
    instance_id ← lift (get_text lib instance_key packet)
    raise_if (not (instance_id == instance)) bad_instance
    interface_id ← lift (get_text lib interface_key packet)
    raise_if (not (interface == interface_id)) bad_interface
    method_id ← lift (get_text lib method_key packet)
    raise_if (not (method == method_id)) bad_method
    raise_if (has_exception lib packet) (get_exception lib packet)
    extract_result lib result packet

-- `W` is the state of what the sender works on.
module _ (lib : Library) {W : Type 0} where
  abbrev pub rethrown : {R : Type 0} → W × Reply R → W × Reply R
  rethrown (world, raises e) = (world, raises (wrapped e))
  rethrown (world, returns value) = (world, returns value)

  abbrev pub answered :
      List ℕ
      → List ℕ
      → List ℕ
      → (result : Option Shape) → W × Reply Members
      → W × Reply (Value result)
  answered instance interface method result (world, raises e) = (world, raises e)
  answered instance interface method result (world, returns packet) =
      (world, accept_response lib instance interface method result packet)

  unfoldable pub remote_call :
      (List ℕ → List ℕ → W → W × Reply Members)
      → List ℕ
      → List ℕ
      → List ℕ
      → List ℕ
      → (params : Shapes) → (result : Option Shape) → Els params
      → W
      → W × Reply (Value result)
  unfolding accept_response
  remote_call sender request_id instance interface method params result values world =
      rethrown
        (elim (lift (
          put_params_if_exists lib params values
            (serializer lib true request_id instance interface method))) [
              | raises e ↦ (world, raises e)
              | returns request ↦
                  answered instance interface method result
                    (sender request_id (get_buffer lib request) world)
            ])
