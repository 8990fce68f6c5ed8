-- ===== src/Remote/Manager.antt =====
-- The table of stubs, and the object manager that a peer calls: `PSClient::ObjectManager` of
-- include/mif/remote/ps_client.h (80-226), and `Registry::Visitor` of detail/registry.h.
pub mod Lifetime
pub mod Unregistered
use mif.Prelude.{if◌then◌else◌, ◌==◌, ℕ, Option, none, some, List, [], ◌∷◌, bytes_eq, nat_eq}
use mif.Prelude.Map.{lookup, erase, insert}
use mif.Serialization.Json.{is_empty}
use mif.Net.Http.WebService.{bytes_lt}
use mif.Remote.Errors.{
  Error, Reply, raises, returns, empty_parameter, no_instance, null_stub, ◌>>=◌, ◌>>◌, raise_if,
}

-- `Visitor::Accept`: the items one after another, until one gives something
unfoldable pub accept {ℓ κ} : {T : Type ℓ} {R : Type κ} → (T → Option R) → List T → Option R
accept visit [] = none
accept visit (item ∷ items) = elim (visit item) [ none ↦ accept visit items | some r ↦ some r ]

-- The services of the process: their interfaces, and the search for one. `I` is the type of a
-- pointer to a service that is not null.
pub record Services (I : Type 0) : Type 0 where
  pub registry : List (List ℕ)
  pub create : ℕ → Reply (Option I)
  pub query : I → List ℕ → List ℕ → Option I

-- What the table holds of a stub; a null pointer where no registered interface has the asked name
pub record Entry (I : Type 0) : Type 0 where
  pub instance : I
  pub interface : List ℕ

abbrev pub Table : Type 0 → Type 0
Table I = List (List ℕ × Option (Entry I))

module _ {I : Type 0} where
  -- `CreateStubVisitor`
  abbrev pub visit_stub : I → List ℕ → List ℕ → Option (Entry I)
  visit_stub instance interface registered =
      if registered == interface
      then some (record { instance = instance; interface = interface })
      else none

  -- `AppendStub`: between its two blocks under the lock other threads may change the table.
  unfoldable pub append_stub :
      List (List ℕ) → (Table I → Table I) → List ℕ → Table I → Option I → List ℕ → Table I × List ℕ
  unfolding accept
  append_stub registry others id table none interface = (table, [])
  append_stub registry others id table (some instance) interface = elim (lookup id table) [
    | some stub ↦ (table, id)
    | none ↦
        let changed = others table in
        elim (lookup id changed) [
          | some stub ↦ (changed, id)
          | none ↦
              (insert bytes_lt id (accept (visit_stub instance interface) registry) changed, id)
        ]
  ]

-- The methods of `IObjectManager`, as a peer calls them
pub data Op : Type 0 where
  create_object : ℕ → List ℕ → Op
  destroy_object : List ℕ → Op
  query_interface : List ℕ → List ℕ → List ℕ → Op
  clone_reference : List ℕ → List ℕ → Op

module _ {I : Type 0} (services : Services I) where
  abbrev appended : Table I × List ℕ → Table I × Reply (List ℕ)
  appended added = (added.0, returns added.1)

  unfoldable pub create_object_now :
      (Table I → Table I) → List ℕ → ℕ → List ℕ → Table I → Table I × Reply (List ℕ)
  unfolding append_stub
  create_object_now others fresh service interface table =
      if is_empty interface
      then (table, raises empty_parameter)
      else elim (services.create service) [
        | raises e ↦ (table, raises e)
        | returns instance ↦
            appended (append_stub services.registry others fresh table instance interface)
      ]

  unfoldable pub destroy_object_now : List ℕ → Table I → Table I × Reply (List ℕ)
  destroy_object_now id table =
      if is_empty id then (table, raises empty_parameter) else elim (lookup id table) [
        | none ↦ (table, raises no_instance)
        | some stub ↦ (erase id table, returns [])
      ]

  -- `QueryInterfaceVisitor`
  abbrev pub visit_query : I → List ℕ → List ℕ → List ℕ → Option I
  visit_query instance interface service registered =
      if interface == registered then services.query instance interface service else none

  unfoldable pub query_interface_now :
      (Table I → Table I) → List ℕ → List ℕ → List ℕ → List ℕ → Table I → Table I × Reply (List ℕ)
  unfolding append_stub accept
  query_interface_now others fresh id interface service table = elim (lookup id table) [
    | none ↦ (table, raises no_instance)
    | some none ↦ (table, raises null_stub)
    | some (some stub) ↦
        elim (accept (visit_query stub.instance interface service) services.registry) [
          | none ↦ (table, returns [])
          | some found ↦
              appended (append_stub services.registry others fresh table (some found) interface)
        ]
  ]

  unfoldable pub clone_reference_now :
      (Table I → Table I) → List ℕ → List ℕ → List ℕ → Table I → Table I × Reply (List ℕ)
  unfolding append_stub
  clone_reference_now others fresh id interface table = elim (lookup id table) [
    | none ↦ (table, raises no_instance)
    | some none ↦ (table, raises null_stub)
    | some (some stub) ↦
        appended (append_stub services.registry others fresh table (some stub.instance) interface)
  ]

  -- One call, with the id that the generator gives if it is asked
  unfoldable pub perform : (Table I → Table I) → List ℕ → Op → Table I → Table I × Reply (List ℕ)
  unfolding create_object_now destroy_object_now query_interface_now clone_reference_now
  perform others fresh (create_object service interface) table =
      create_object_now others fresh service interface table
  perform others fresh (destroy_object id) table = destroy_object_now id table
  perform others fresh (query_interface id interface service) table =
      query_interface_now others fresh id interface service table
  perform others fresh (clone_reference id interface) table =
      clone_reference_now others fresh id interface table

  -- Calls one after another, each with the id that it may use
  unfoldable pub run : List (List ℕ × Op) → Table I → Table I
  unfolding perform
  run [] table = table
  run ((fresh, op) ∷ calls) table = run calls (perform (λ t. t) fresh op table).0
