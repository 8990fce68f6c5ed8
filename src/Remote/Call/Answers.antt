-- ===== src/Remote/Call/Answers.antt =====
-- What a stub answers, and what the proxy makes of the answer.
use mif.Prelude.{ℕ, ◌≡◌, refl, ap, ◌∙◌, false, Option, none, some, List, arith}
use mif.Serialization.Json.{Json, Members, reparsed, reparsed_members, reparsed_if, Library}
use mif.Serialization.Json.Shapes.{Shape, shape, no_shapes, El}
use mif.Serialization.Json.Storable.{IsLossless, IsStorable, IsText}
use mif.Remote.Errors.{Error, Reply, raises, returns, what, thrown}
use mif.Remote.Packet.{response, serializer, exception_key, put_exception, put_params_if_exists}
use mif.Remote.Stub.{Value, caught, packed, pack_result}
use mif.Remote.Proxy.{accept_response, extract_result}
use mif.Remote.Call.Headers.{
  Names, AreNamed, HasHeader, reparsed-HasHeader, serializer-HasHeader, set-HasHeader,
  serializer-exception,
}
use mif.Remote.Call.Ends.{
  IsFilled, put_params-IsFilled, accept_response-returns, accept_response-raises,
}

-- What the proxy gives for what the method gave: an exception comes with its text only.
abbrev pub relayed {ℓ} : {R : Type ℓ} → (Error → List ℕ) → Reply R → Reply R
relayed texts (raises e) = raises (thrown (what texts e))
relayed texts (returns value) = returns value

-- A result can be written and read, and the text of an exception has no zero byte.
abbrev pub IsWritable : (Error → List ℕ) → (result : Option Shape) → Reply (Value result) → Type 0
IsWritable texts result (raises e) = IsText (what texts e)
IsWritable texts none (returns value) = Unit
IsWritable texts (some s) (returns value) = IsLossless s × IsStorable s value

module _ (lib : Library) (texts : Error → List ℕ) where
  abbrev pub fresh : Names → Members
  fresh names = serializer lib false names.uuid names.instance_id names.interface_id names.method

  -- A message that answers the request as the reply says
  pub record IsAnswer (names : Names) (result : Option Shape) (reply : Reply (Value result))
      (message : Members) : Type 0 where
    pub header : HasHeader lib response names message
    pub accepted :
        accept_response lib names.instance_id names.interface_id names.method result
          (reparsed_members message)
        ≡ relayed texts reply

  abbrev pub stub_answer :
      {S : Type 0} → Names → (result : Option Shape) → S × Reply (Value result) → S × Members
  stub_answer names result called =
      caught lib texts (fresh names) (packed lib result called (fresh names))

  plain-reparsed :
      (m : Members)
      → lib.find exception_key m ≡ none
      → lib.find exception_key (reparsed_members m) ≡ none
  plain-reparsed m h = lib.find-reparsed exception_key m ∙ ap reparsed_if h

  raised-IsAnswer :
      (names : Names) (result : Option Shape) (e : Error)
      → AreNamed names
      → IsText (what texts e)
      → IsAnswer names result (raises e) (put_exception lib (what texts e) (fresh names))
  unfolding put_exception reparsed
  raised-IsAnswer names result e named text =
      let message = what texts e in
      let removed = lib.remove exception_key (fresh names) in
      let header =
        set-HasHeader lib exception_key (Json.string message) response names (fresh names)
          (ground arith) (serializer-HasHeader lib false names) in
      let filled = lib.set exception_key (Json.string message) removed in
      record {
        header = header;
        accepted =
            accept_response-raises lib names result (reparsed_members filled) message
              (reparsed-HasHeader lib response names filled header) named
              (lib.find-reparsed exception_key filled
                ∙ ap reparsed_if (lib.find-set exception_key (Json.string message) removed))
              text;
      }

  void-IsAnswer :
      (names : Names) (value : Value none)
      → AreNamed names
      → IsAnswer names none (returns value) (fresh names)
  unfolding extract_result
  void-IsAnswer names value named =
      let header = serializer-HasHeader lib false names in
      record {
        header = header;
        accepted =
            accept_response-returns lib names none (reparsed_members (fresh names)) value
              (reparsed-HasHeader lib response names (fresh names) header) named
              (plain-reparsed (fresh names) (serializer-exception lib false names)) refl;
      }

  value-IsAnswer :
      (names : Names) (s : Shape) (value : El s)
      (filled : IsFilled lib (shape s no_shapes) (value, tt) response names (fresh names))
      → AreNamed names
      → IsAnswer names (some s) (returns value) filled.filled
  unfolding extract_result
  value-IsAnswer names s value filled named = record {
    header = filled.header;
    accepted =
        accept_response-returns lib names (some s) (reparsed_members filled.filled) value
          (reparsed-HasHeader lib response names filled.filled filled.header) named
          (plain-reparsed filled.filled (filled.exception ∙ serializer-exception lib false names))
          (rw filled.got refl);
  }

  -- What a stub makes of the reply of its method
  pub stub_answer-IsAnswer :
      {S : Type 0} (names : Names) (result : Option Shape) (s : S) (reply : Reply (Value result))
      → AreNamed names
      → IsWritable texts result reply
      → let answer = stub_answer names result (s, reply) in
        (answer.0 ≡ s) × IsAnswer names result reply answer.1
  unfolding pack_result put_params_if_exists
  stub_answer-IsAnswer names result s (raises e) named writable =
      (refl, raised-IsAnswer names result e named writable)
  stub_answer-IsAnswer names none s (returns value) named writable =
      (refl, void-IsAnswer names value named)
  stub_answer-IsAnswer names (some shape_of) s (returns value) named writable =
      let filled =
        put_params-IsFilled lib (shape shape_of no_shapes) (value, tt) response names (fresh names)
          (writable.0, tt) (writable.1, tt) (serializer-HasHeader lib false names) in
      rw filled.put (refl, value-IsAnswer names shape_of value filled named)
