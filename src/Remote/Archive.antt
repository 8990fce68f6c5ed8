-- ===== src/Remote/Archive.antt =====
-- include/mif/remote/serialization/boost.h: requests and responses in an archive of Boost. The
-- archives are parameters: what was written is read in its order, and some check the names.
use mif.Prelude.{
  if◌then◌else◌, ◌==◌, ℕ, suc, ◌≡◌, ◌≢◌, ◌⊎◌, Bool, true, false, Option, none, some, List, [], ◌∷◌,
  ◌++◌, bytes_eq, nat_eq,
}
use mif.Serialization.Json.{is_empty, Outcome, fails, done, invalid_value, parse_error, ◌>>=◌}
use mif.Serialization.Json.Numbers.{uint64_to_string}
use mif.Remote.Packet.{
  uuid_key, type_key, request, response, instance_key, interface_key, method_key, param_key,
  exception_key,
}
pub mod Names
pub mod RoundTrip
mod Tests

-- `Tag::Param::Value + std::to_string(index)`
unfoldable pub param_name : ℕ → List ℕ
param_name index = param_key ++ uint64_to_string index

pub data Shape (Kind : Type 0) : Type 0 where
  text flag : Shape Kind
  value : Kind → Shape Kind

-- `Tag::HasException`
abbrev pub has_exception_key : List ℕ
has_exception_key = 104 ∷ 97 ∷ 115 ∷ 95 ∷ 101 ∷ 120 ∷ 99 ∷ 101 ∷ 112 ∷ 116 ∷ 105 ∷ 111 ∷ 110 ∷ []

module _ {Kind : Type 0} (Value : Kind → Type 0) where
  abbrev pub El : Shape Kind → Type 0
  El text = List ℕ
  El flag = Bool
  El (value k) = Value k

  abbrev pub Els : List (Shape Kind) → Type 0
  Els [] = Unit
  Els (s ∷ ss) = El s × Els ss

  -- `make_nvp`
  pub record Entry : Type 0 where
    pub shape : Shape Kind
    pub name : List ℕ
    pub content : El shape

-- An archive of Boost; its own exceptions are `parse_error`.
pub record Archive {Kind : Type 0} (Value : Kind → Type 0) : Type 1 where
  pub Stream : Type 0
  -- the buffer after an output archive, and an input archive with these entries left
  pub write : List (Entry Value) → List ℕ
  pub opened : List (Entry Value) → Stream
  pub start : List ℕ → Outcome Stream
  pub load : (s : Shape Kind) → List ℕ → Stream → Outcome (El Value s × Stream)
  pub checks_names : Bool
  pub start-write : (es : List (Entry Value)) → start (write es) ≡ done (opened es)
  pub write_header : (es : List (Entry Value)) → is_empty (write es) ≡ false
  pub load-opened :
      (s : Shape Kind) (name asked : List ℕ) (x : El Value s) (es : List (Entry Value))
      → (checks_names ≡ false) ⊎ (name ≡ asked)
      → load s asked (opened (record { shape = s; name = name; content = x } ∷ es))
        ≡ done (x, opened es)
  pub load-opened_other :
      (s : Shape Kind) (name asked : List ℕ) (x : El Value s) (es : List (Entry Value))
      → checks_names ≡ true
      → name ≢ asked
      → load s asked (opened (record { shape = s; name = name; content = x } ∷ es))
        ≡ fails parse_error

module _ {Kind : Type 0} {Value : Kind → Type 0} where
  abbrev pub entry : (s : Shape Kind) → List ℕ → El Value s → Entry Value
  entry s name x = record { shape = s; name = name; content = x }

  -- `SaveTupleParams`: the saves are the arguments of one call, and the compiler chooses whether the
  -- first one or the last one comes first.
  unfoldable pub save_params :
      Bool → ℕ → (ss : List (Shape Kind)) → Els Value ss → List (Entry Value)
  save_params last_first index [] xs = []
  save_params last_first index (s ∷ ss) (x, xs) =
      let rest = save_params last_first (suc index) ss xs in
      if last_first
      then rest ++ entry s (param_name index) x ∷ []
      else entry s (param_name index) x ∷ rest

module _ {Kind : Type 0} (Value : Kind → Type 0) where
  pub record Serializer : Type 0 where
    pub type : List ℕ
    pub uuid : List ℕ
    pub instance_id : List ℕ
    pub interface_id : List ℕ
    pub method_id : List ℕ
    pub exception : Option (List ℕ)
    pub shapes : List (Shape Kind)
    pub params : Els Value shapes

module _ {Kind : Type 0} {Value : Kind → Type 0} where
  unfoldable pub serializer :
      Bool
      → List ℕ
      → List ℕ
      → List ℕ
      → List ℕ
      → (ss : List (Shape Kind)) → Els Value ss
      → Serializer Value
  serializer is_request uuid instance_id interface_id method_id shapes params = record {
    type = if is_request then request else response;
    uuid = uuid;
    instance_id = instance_id;
    interface_id = interface_id;
    method_id = method_id;
    exception = none;
    shapes = shapes;
    params = params;
  }

  unfoldable pub put_params :
      (ss : List (Shape Kind)) → Els Value ss → Serializer Value → Serializer Value
  put_params shapes params p = record {
    type = p.type;
    uuid = p.uuid;
    instance_id = p.instance_id;
    interface_id = p.interface_id;
    method_id = p.method_id;
    exception = p.exception;
    shapes = shapes;
    params = params;
  }

  -- The text is that of the exception.
  unfoldable pub put_exception : List ℕ → Serializer Value → Serializer Value
  put_exception message p = record {
    type = p.type;
    uuid = p.uuid;
    instance_id = p.instance_id;
    interface_id = p.interface_id;
    method_id = p.method_id;
    exception = some message;
    shapes = p.shapes;
    params = p.params;
  }

  unfoldable pub save_exception : Option (List ℕ) → List (Entry Value)
  save_exception none = entry flag has_exception_key false ∷ []
  save_exception (some message) =
      entry flag has_exception_key true ∷ entry text exception_key message ∷ []

  unfoldable pub get_buffer : Archive Value → Bool → Serializer Value → List ℕ
  unfolding save_params save_exception
  get_buffer archive last_first p = archive.write (
      entry text uuid_key p.uuid
      ∷ entry text type_key p.type
      ∷ entry text instance_key p.instance_id
      ∷ entry text interface_key p.interface_id
      ∷ entry text method_key p.method_id
      ∷ (save_exception p.exception ++ save_params last_first 0 p.shapes p.params))

module _ {Kind : Type 0} {Value : Kind → Type 0} (archive : Archive Value) where
  pub record Deserializer : Type 0 where
    pub uuid : List ℕ
    pub type : List ℕ
    pub instance_id : List ℕ
    pub interface_id : List ℕ
    pub method_id : List ℕ
    pub exception : Option (List ℕ)
    pub stream : archive.Stream

  abbrev pub load_exception : Bool → archive.Stream → Outcome (Option (List ℕ) × archive.Stream)
  load_exception false stream = done (none, stream)
  load_exception true stream =
      archive.load text exception_key stream >>= λ (message, rest). done (some message, rest)

  -- The archive is opened before the buffer is checked.
  unfoldable pub deserializer : List ℕ → Outcome Deserializer
  deserializer buffer = archive.start buffer >>= λ begin.
      if is_empty buffer
      then fails invalid_value
      else archive.load text uuid_key begin >>= λ (uuid, s).
          archive.load text type_key s >>= λ (type, t).
          archive.load text instance_key t >>= λ (instance_id, u).
          archive.load text interface_key u >>= λ (interface_id, v).
          archive.load text method_key v >>= λ (method_id, w).
          archive.load flag has_exception_key w >>= λ (has, x).
          load_exception has x >>= λ (exception, stream). done record {
            uuid = uuid;
            type = type;
            instance_id = instance_id;
            interface_id = interface_id;
            method_id = method_id;
            exception = exception;
            stream = stream;
          }

  abbrev pub is_request : Deserializer → Bool
  is_request d = d.type == request

  abbrev pub is_response : Deserializer → Bool
  is_response d = d.type == response

  -- `LoadParams`, from the last parameter to the first, each under the number of those up to it
  unfoldable pub load_params :
      ℕ → (ss : List (Shape Kind)) → archive.Stream → Outcome (Els Value ss × archive.Stream)
  load_params index [] stream = done (tt, stream)
  load_params index (s ∷ ss) stream = load_params (suc index) ss stream >>= λ (xs, rest).
      archive.load s (param_name index) rest >>= λ (x, last). done ((x, xs), last)

  unfoldable pub get_params :
      (ss : List (Shape Kind)) → Deserializer → Outcome (Els Value ss × archive.Stream)
  unfolding load_params
  get_params ss d = load_params 1 ss d.stream
