-- ===== src/Remote/Packet.antt =====
-- include/mif/remote/serialization/json.h: requests and responses as JSON objects.
use mif.Prelude.{
  if◌then◌else◌, ◌==◌, ℕ, Bool, true, false, none, some, List, [], ◌∷◌, bytes_eq, nat_eq,
}
use mif.Serialization.Json.{
  Json, Members, no_members, Outcome, fails, done, invalid_value, missing_key, not_object, Library,
}
use mif.Serialization.Json.Shapes.{Shapes, no_shapes, shape, tuple, Els, defaults}
use mif.Serialization.Json.Convert.{c_str}
use mif.Serialization.Json.Write.{to_json}
use mif.Serialization.Json.Read.{from_json}
use mif.Remote.Errors.{Error, serialization, thrown}

-- The keys of remote/serialization/detail/tag.h
abbrev pub uuid_key : List ℕ
uuid_key = 117 ∷ 117 ∷ 105 ∷ 100 ∷ []

abbrev pub type_key : List ℕ
type_key = 116 ∷ 121 ∷ 112 ∷ 101 ∷ []

abbrev pub request : List ℕ
request = 114 ∷ 101 ∷ 113 ∷ 117 ∷ 101 ∷ 115 ∷ 116 ∷ []

abbrev pub response : List ℕ
response = 114 ∷ 101 ∷ 115 ∷ 112 ∷ 111 ∷ 110 ∷ 115 ∷ 101 ∷ []

abbrev pub instance_key : List ℕ
instance_key = 105 ∷ 110 ∷ 115 ∷ 116 ∷ 97 ∷ 110 ∷ 99 ∷ 101 ∷ []

abbrev pub interface_key : List ℕ
interface_key = 105 ∷ 110 ∷ 116 ∷ 101 ∷ 114 ∷ 102 ∷ 97 ∷ 99 ∷ 101 ∷ []

abbrev pub method_key : List ℕ
method_key = 109 ∷ 101 ∷ 116 ∷ 104 ∷ 111 ∷ 100 ∷ []

abbrev pub param_key : List ℕ
param_key = 112 ∷ 114 ∷ 109 ∷ []

abbrev pub exception_key : List ℕ
exception_key = 101 ∷ 120 ∷ 99 ∷ 101 ∷ 112 ∷ 116 ∷ 105 ∷ 111 ∷ 110 ∷ []

module _ (lib : Library) where
  -- `Serializer`, without its parameters
  unfoldable pub serializer : Bool → List ℕ → List ℕ → List ℕ → List ℕ → Members
  serializer is_request uuid instance_id interface_id method_id =
      let with_uuid = lib.set uuid_key (Json.string uuid) no_members in
      let with_type =
        lib.set type_key (Json.string (if is_request then request else response)) with_uuid in
      let with_instance = lib.set instance_key (Json.string instance_id) with_type in
      let with_interface = lib.set interface_key (Json.string interface_id) with_instance in
      lib.set method_key (Json.string method_id) with_interface

  unfoldable pub put_params : (ss : Shapes) → Els ss → Members → Outcome Members
  put_params ss params m = elim (to_json lib (tuple ss) params) [
    | fails e ↦ fails e
    | done j ↦ done (lib.set param_key j (lib.remove param_key m))
  ]

  unfoldable pub put_params_if_exists : (ss : Shapes) → Els ss → Members → Outcome Members
  unfolding put_params
  put_params_if_exists no_shapes params m = done m
  put_params_if_exists (shape s ss) params m = put_params (shape s ss) params m

  -- The text is that of the exception.
  unfoldable pub put_exception : List ℕ → Members → Members
  put_exception message m = lib.set exception_key (Json.string message) (lib.remove exception_key m)

  unfoldable pub get_buffer : Members → List ℕ
  get_buffer m = lib.print (Json.object m)

  -- `Deserializer`
  unfoldable pub deserializer : List ℕ → Outcome Members
  deserializer [] = fails invalid_value
  deserializer (b ∷ buffer) = elim (lib.parse (b ∷ buffer)) [
    | fails e ↦ fails e
    | done (Json.object m) ↦ done m
    | done _ ↦ fails invalid_value
  ]

  unfoldable pub get_text : List ℕ → Members → Outcome (List ℕ)
  get_text key m = elim (lib.find key m) [
    | none ↦ fails missing_key
    | some (Json.string text) ↦ done (c_str text)
    | some _ ↦ fails not_object
  ]

  unfoldable pub get_params : (ss : Shapes) → Members → Outcome (Els ss)
  get_params no_shapes m = done tt
  get_params (shape s ss) m = elim (lib.find param_key m) [
    | none ↦ fails missing_key
    | some j ↦ from_json lib (tuple (shape s ss)) j (defaults (shape s ss))
  ]

  unfoldable pub is_response : Members → Outcome Bool
  unfolding get_text
  is_response m = elim (get_text type_key m) [
    | fails e ↦ fails e
    | done type ↦ done (type == response)
  ]

  unfoldable pub has_exception : Members → Bool
  has_exception m = elim (lib.find exception_key m) [ none ↦ false | some j ↦ true ]

  -- The exception that a response holds, as it is thrown again: always a `std::runtime_error`, and
  -- where the text cannot be had the error of reading it
  unfoldable pub get_exception : Members → Error
  unfolding get_text
  get_exception m = elim (get_text exception_key m) [
    | fails e ↦ serialization e
    | done message ↦ thrown message
  ]
