-- ===== src/Remote/Call/Ends.antt =====
-- A message at the end that receives it: its names, its parameters, and the method that is called.
use mif.Prelude.{
  Bool-cases, ◌==◌, bytes_beq, bytes_beq_iff, ℕ, ◌≡◌, refl, ap, ◌∙◌, inl, inr, Bool, true, false,
  Option, none, some, List, arith, bytes_eq, nat_eq,
}
use mif.Serialization.Json.{is_empty, Json, Members, done, reparsed_members, Library}
use mif.Serialization.Json.Shapes.{Shape, Shapes, no_shapes, shape, tuple, Els, default}
use mif.Serialization.Json.Storable.{AreLossless, AreStorable, IsText}
use mif.Serialization.Json.RoundTrip.{kept}
use mif.Serialization.Json.Values.{c_str-IsText}
use mif.Remote.Errors.{Error, raises, returns, thrown, raise_if, ◌>>◌}
use mif.Remote.Packet.{
  response, param_key, exception_key, type_key, get_params, put_params, put_params_if_exists,
  is_response, has_exception, get_exception, uuid_key, instance_key, interface_key, method_key,
  deserializer,
}
use mif.Remote.Stub.{
  Method, Chain, Value, contain_interface_id, all_methods, invoke_method, invoke_real_method,
  checked_method, call, find_method, caught, packed, performed,
}
use mif.Remote.Proxy.{accept_response, extract_result}
use mif.Remote.Client.{Header, read_header}
use mif.Remote.Call.Headers.{Names, AreNamed, HasHeader, get_text-found, set-HasHeader}

module _ (lib : Library) where
  abbrev pub names_of : Names → Members → Bool → Header
  names_of names packet answers = record {
    packet = packet;
    uuid = names.uuid;
    instance_id = names.instance_id;
    interface_id = names.interface_id;
    method = names.method;
    answers = answers;
  }

  -- A message whose parameters were put in, and what the other end has of it
  pub record IsFilled (ss : Shapes) (xs : Els ss) (type : List ℕ) (names : Names) (m : Members)
      : Type 0 where
    pub filled : Members
    pub put : put_params_if_exists lib ss xs m ≡ done filled
    pub header : HasHeader lib type names filled
    pub exception : lib.find exception_key filled ≡ lib.find exception_key m
    pub got : get_params lib ss (reparsed_members filled) ≡ done xs

  pub put_params-IsFilled :
      (ss : Shapes) (xs : Els ss) (type : List ℕ) (names : Names) (m : Members)
      → AreLossless ss
      → AreStorable ss xs
      → HasHeader lib type names m
      → IsFilled ss xs type names m
  unfolding put_params_if_exists get_params default
  put_params-IsFilled no_shapes xs type names m lossless storable h = record {
    filled = m;
    put = refl;
    header = h;
    exception = refl;
    got = refl;
  }
  put_params-IsFilled (shape s ss) xs type names m lossless storable h =
      let (j, wrote, red) = kept lib (tuple (shape s ss)) xs lossless storable in
      let removed = lib.remove param_key m in
      record {
        filled = lib.set param_key j removed;
        put = rw (wrote, put_params);
        header = set-HasHeader lib param_key j type names m (ground arith) h;
        exception =
            lib.find-set_other param_key exception_key j removed (ground arith)
            ∙ lib.find-remove_other param_key exception_key m (ground arith);
        got =
            rw
              (
                get_params,
                lib.find-reparsed param_key (lib.set param_key j removed),
                lib.find-set param_key j removed,
              )
              red;
      }

  -- What a client makes of a message's names
  pub read_header-HasHeader :
      (texts : Error → List ℕ) (timeout : ℕ) (type : List ℕ) (names : Names) (buffer : List ℕ)
      (packet : Members)
      → IsText type
      → AreNamed names
      → is_empty buffer ≡ false
      → deserializer lib buffer ≡ done packet
      → HasHeader lib type names packet
      → read_header lib texts timeout buffer ≡ returns (names_of names packet (type == response))
  unfolding read_header is_response
  read_header-HasHeader texts timeout type names buffer packet text named full red h =
      rw
        (
          full,
          red,
          get_text-found lib uuid_key names.uuid packet h.uuid_is named.uuid_text,
          named.uuid_filled,
          get_text-found lib instance_key names.instance_id packet h.instance_is
              named.instance_text,
          named.instance_filled,
          get_text-found lib interface_key names.interface_id packet h.interface_is
              named.interface_text,
          named.interface_filled,
          get_text-found lib method_key names.method packet h.method_is named.method_text,
          named.method_filled,
          is_response,
          get_text-found lib type_key type packet h.type_is text,
        )
        refl

  -- The call at the stub, once the request is known
  pub call-found :
      {S : Type 0} (texts : Error → List ℕ) (chain : Chain S) (s : S) (names : Names)
      (packet fresh : Members) (type : List ℕ) (method : Method S) (args : Els method.params)
      → HasHeader lib type names packet
      → AreNamed names
      → contain_interface_id chain names.interface_id ≡ true
      → find_method names.method (all_methods chain) ≡ some method
      → get_params lib method.params packet ≡ done args
      → call lib texts chain s packet fresh
        ≡ caught lib texts fresh (packed lib method.result (performed method s args) fresh)
  unfolding call checked_method invoke_method invoke_real_method
  call-found texts chain s names packet fresh type method args h named offered known got =
      rw
        (
          get_text-found lib interface_key names.interface_id packet h.interface_is
              named.interface_text,
          offered,
          get_text-found lib method_key names.method packet h.method_is named.method_text,
          invoke_method,
          known,
          invoke_real_method,
          got,
        )
        (elim (Bool-cases (method.is_offered s)) [
          | inl offers ↦ rw offers refl
          | inr refuses ↦ rw refuses refl
        ])

  same : (text : List ℕ) → bytes_beq text text ≡ true
  same text = (bytes_beq_iff text text).1 refl

  -- A response to the request passes the checks.
  accept_response-checked :
      (names : Names) (result : Option Shape) (packet : Members)
      → HasHeader lib response names packet
      → AreNamed names
      → accept_response lib names.instance_id names.interface_id names.method result packet ≡ (
          raise_if (has_exception lib packet) (get_exception lib packet)
          >> extract_result lib result packet)
  unfolding accept_response is_response
  accept_response-checked names result packet h named =
      rw
        (
          is_response,
          get_text-found lib type_key response packet h.type_is (ground arith),
          get_text-found lib instance_key names.instance_id packet h.instance_is
              named.instance_text,
          same names.instance_id,
          get_text-found lib interface_key names.interface_id packet h.interface_is
              named.interface_text,
          same names.interface_id,
          get_text-found lib method_key names.method packet h.method_is named.method_text,
          same names.method,
        )
        refl

  -- A response without an exception gives its result.
  pub accept_response-returns :
      (names : Names) (result : Option Shape) (packet : Members) (value : Value result)
      → HasHeader lib response names packet
      → AreNamed names
      → lib.find exception_key packet ≡ none
      → extract_result lib result packet ≡ returns value
      → accept_response lib names.instance_id names.interface_id names.method result packet
        ≡ returns value
  unfolding has_exception
  accept_response-returns names result packet value h named plain extracted =
      accept_response-checked names result packet h named ∙ rw (has_exception, plain) extracted

  -- A response with one throws it again.
  pub accept_response-raises :
      (names : Names) (result : Option Shape) (packet : Members) (message : List ℕ)
      → HasHeader lib response names packet
      → AreNamed names
      → lib.find exception_key packet ≡ some (Json.string message)
      → IsText message
      → accept_response lib names.instance_id names.interface_id names.method result packet
        ≡ raises (thrown message)
  unfolding has_exception get_exception
  accept_response-raises names result packet message h named thrown_it text =
      accept_response-checked names result packet h named
      ∙ rw (has_exception, thrown_it, get_exception)
          (ap (λ (m : List ℕ). raises (thrown m)) (c_str-IsText message text))
