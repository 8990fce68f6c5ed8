-- ===== src/Remote/Manager/Unregistered.antt =====
-- An interface that no proxy and stub are registered for.
use mif.Prelude.{
  All, bytes_beq_iff, ℕ, ◌≡◌, refl, ◌≢◌, none, some, List, [], ◌∷◌, arith, bytes_eq, nat_eq,
}
use mif.Prelude.Map.{lookup, insert}
use mif.Prelude.Map.Laws.{lookup-insert}
use mif.Net.Http.WebService.{bytes_lt}
use mif.Remote.Errors.{raises, returns, null_stub}
use mif.Remote.Manager.{
  Services, Table, create_object, query_interface, clone_reference, accept, visit_stub, append_stub,
  perform, query_interface_now, clone_reference_now,
}

module _ {I : Type 0} where
  accept-visit_stub :
      (registry : List (List ℕ)) (instance : I) (interface : List ℕ)
      → All (λ registered. registered ≢ interface) registry
      → accept (visit_stub instance interface) registry ≡ none
  unfolding accept
  accept-visit_stub [] instance interface h = refl
  accept-visit_stub (registered ∷ registry) instance interface h =
      ground (
        arith,
        bytes_beq_iff registered interface,
        accept-visit_stub registry instance interface h.1,
      )

  perform-null_stub :
      (services : Services I) (id fresh asked searched : List ℕ) (table : Table I)
      → lookup id table ≡ some none
      → ((perform services (λ t. t) fresh (query_interface id asked searched) table).1
          ≡ raises null_stub)
        × ((perform services (λ t. t) fresh (clone_reference id asked) table).1 ≡ raises null_stub)
  unfolding perform
  perform-null_stub services id fresh asked searched table h =
      (rw (h, query_interface_now), rw (h, clone_reference_now))

  perform-create_object :
      (services : Services I) (fresh interface : List ℕ) (b service : ℕ) (instance : I)
      (table : Table I)
      → services.create service ≡ returns (some instance)
      → All (λ registered. registered ≢ b ∷ interface) services.registry
      → lookup fresh table ≡ none
      → perform services (λ t. t) fresh (create_object service (b ∷ interface)) table
        ≡ (insert bytes_lt fresh none table, returns fresh)
  unfolding perform append_stub
  perform-create_object services fresh interface b service instance table created unknown absent =
      rw (
        created,
        append_stub,
        absent,
        absent,
        accept-visit_stub services.registry instance (b ∷ interface) unknown,
      )

  -- A service that is created with the name of an interface for which no proxy and stub are
  -- registered is answered with an id all the same, under which the table holds a null stub: a call
  -- of QueryInterface or CloneReference for this id follows the null pointer.
  pub perform-unregistered :
      (services : Services I) (fresh interface : List ℕ) (b service : ℕ) (instance : I)
      (table : Table I)
      → services.create service ≡ returns (some instance)
      → All (λ registered. registered ≢ b ∷ interface) services.registry
      → lookup fresh table ≡ none
      → let made = perform services (λ t. t) fresh (create_object service (b ∷ interface)) table in
        (made.1 ≡ returns fresh)
        × ((id asked searched : List ℕ)
            → (perform services (λ t. t) id (query_interface fresh asked searched) made.0).1
              ≡ raises null_stub)
        × ((id asked : List ℕ)
            → (perform services (λ t. t) id (clone_reference fresh asked) made.0).1
              ≡ raises null_stub)
  perform-unregistered services fresh interface b service instance table created unknown absent =
      let added = insert bytes_lt fresh none table in
      let null : lookup fresh added ≡ some none =
        ground (arith, lookup-insert bytes_lt fresh fresh none table, bytes_beq_iff fresh fresh) in
      let made =
        perform-create_object services fresh interface b service instance table created unknown
          absent in
      (
        rw made,
        λ id asked searched.
            rw made (perform-null_stub services fresh id asked searched added null).0,
        λ id asked. rw made (perform-null_stub services fresh id asked [] added null).1,
      )
