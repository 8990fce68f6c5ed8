-- ===== src/Remote/Call/Hidden.antt =====
-- Methods of one name in an interface and in one that it inherits.
use mif.Prelude.{bytes_beq_iff, ℕ, ◌≡◌, ◌≢◌, true, some, List, [], ◌∷◌, ◌++◌, arith}
use mif.Serialization.Json.{Members, Library, done}
use mif.Serialization.Json.Shapes.{Els}
use mif.Remote.Errors.{Error}
use mif.Remote.Packet.{get_params}
use mif.Remote.Stub.{
  Method, Interface, Chain, contain_interface_id, all_methods, find_method, call, caught, packed,
  performed,
}
use mif.Remote.Call.Headers.{Names, AreNamed, HasHeader}
use mif.Remote.Call.Ends.{call-found}

find_method-append :
    {S : Type 0} (name : List ℕ) (methods others : List (Method S)) (method : Method S)
    → find_method name methods ≡ some method
    → find_method name (methods ++ others) ≡ some method
unfolding find_method
find_method-append name [] others method h = cc
find_method-append name (m ∷ methods) others method h =
    ground (arith, find_method-append name methods others method)

-- A request that names an inherited interface and a method of it calls the method of the derived
-- interface that has the same name, if there is one and its parameters can be read from the request:
-- they are read as those of the derived one, the instance is cast to the derived interface, whose
-- exception the caller gets if that fails, and the method of the interface that the caller named is
-- not called.
pub call-hidden :
    (lib : Library) (texts : Error → List ℕ) {S : Type 0} (derived : Interface S) (bases : Chain S)
    (s : S) (names : Names) (packet fresh : Members) (type : List ℕ) (method : Method S)
    (args : Els method.params)
    → HasHeader lib type names packet
    → AreNamed names
    → names.interface_id ≢ derived.id
    → contain_interface_id bases names.interface_id ≡ true
    → find_method names.method derived.methods ≡ some method
    → get_params lib method.params packet ≡ done args
    → call lib texts (derived ∷ bases) s packet fresh
      ≡ caught lib texts fresh (packed lib method.result (performed method s args) fresh)
unfolding contain_interface_id all_methods
call-hidden lib texts derived bases s names packet fresh type method args h named other offered
      known got =
    call-found lib texts (derived ∷ bases) s names packet fresh type method args h named
      (ground (arith, bytes_beq_iff derived.id names.interface_id))
      (find_method-append names.method derived.methods (all_methods bases) method known) got
