-- ===== src/Remote/Manager/Lifetime.antt =====
-- How long the table of stubs holds an object.
use mif.Prelude.{
  Bool-cases, Option-cases, All, bytes_beq_iff, ℕ, ◌≡◌, refl, ◌∙◌, ◌≢◌, ◌⊎◌, inl, inr, Option, none,
  some, List, [], ◌∷◌, arith, bytes_eq, nat_eq,
}
use mif.Prelude.Map.{lookup, erase, insert}
use mif.Prelude.Map.Laws.{lookup-erase, lookup-insert}
use mif.Net.Http.WebService.{bytes_lt}
use mif.Serialization.Json.{is_empty}
use mif.Remote.Errors.{raises, returns, no_instance, Reply-cases}
use mif.Remote.Manager.{
  Services, Entry, Table, Op, create_object, destroy_object, query_interface, clone_reference,
  accept, append_stub, perform, run, query_interface_now, clone_reference_now, visit_query,
  destroy_object_now,
}

-- A call that neither makes a stub under an id nor destroys it
abbrev pub Untouched : List ℕ → List ℕ × Op → Type 0
Untouched q (fresh, op) = (fresh ≢ q) × (op ≢ destroy_object q)

module _ {I : Type 0} where
  insert-lookup :
      (fresh q : List ℕ) (stub : Option (Entry I)) (table : Table I)
      → fresh ≢ q
      → lookup q (insert bytes_lt fresh stub table) ≡ lookup q table
  insert-lookup fresh q stub table h =
      ground (arith, lookup-insert bytes_lt fresh q stub table, bytes_beq_iff fresh q)

  -- Adding a stub does not change what the others find.
  append_stub-lookup :
      (registry : List (List ℕ)) (fresh q : List ℕ) (table : Table I) (instance : Option I)
      (interface : List ℕ)
      → fresh ≢ q
      → lookup q (append_stub registry (λ t. t) fresh table instance interface).0 ≡ lookup q table
  unfolding append_stub
  append_stub-lookup registry fresh q table none interface h = refl
  append_stub-lookup registry fresh q table (some x) interface h =
      elim (Option-cases (lookup fresh table)) [
        | inl absent ↦ rw (absent, append_stub, absent) (insert-lookup fresh q _ table h)
        | inr (stub, present) ↦ rw (present, append_stub)
      ]

  destroy-lookup :
      (id q : List ℕ) (table : Table I) → id ≢ q → lookup q (erase id table) ≡ lookup q table
  destroy-lookup id q table h = ground (arith, lookup-erase id q table, bytes_beq_iff id q)

  stub-cases :
      (id : List ℕ) (table : Table I)
      → (lookup id table ≡ none)
        ⊎ (lookup id table ≡ some none)
        ⊎ ((stub : Entry I) × (lookup id table ≡ some (some stub)))
  stub-cases id table =
      elim (lookup id table)
        as (λ o. (o ≡ none) ⊎ (o ≡ some none) ⊎ ((stub : Entry I) × (o ≡ some (some stub)))) [
          | none ↦ inl refl
          | some none ↦ inr (inl refl)
          | some (some stub) ↦ inr (inr (stub, refl))
        ]

  perform-lookup :
      (services : Services I) (fresh q : List ℕ) (op : Op) (table : Table I)
      → Untouched q (fresh, op)
      → lookup q (perform services (λ t. t) fresh op table).0 ≡ lookup q table
  unfolding perform
  perform-lookup services fresh q (create_object service interface) table h =
      elim (Bool-cases (is_empty interface)) [
        | inl empty ↦ rw empty
        | inr filled ↦ elim (Reply-cases (services.create service)) [
          | inl (e, threw) ↦ rw (filled, threw)
          | inr (instance, created) ↦
              rw (filled, created)
                (append_stub-lookup services.registry fresh q table instance interface h.0)
        ]
      ]
  perform-lookup services fresh q (destroy_object id) table h =
      ground (arith, destroy-lookup id q table)
  perform-lookup services fresh q (query_interface id interface service) table h =
      elim (stub-cases id table) [
        | inl absent ↦ rw (absent, query_interface_now)
        | inr (inl null) ↦ rw (null, query_interface_now)
        | inr (inr (stub, present)) ↦
            elim (Option-cases
              (accept (visit_query services stub.instance interface service) services.registry)) [
                | inl refused ↦ rw (present, refused, query_interface_now)
                | inr (found, given) ↦
                    rw (present, given, query_interface_now)
                      (append_stub-lookup services.registry fresh q table (some found) interface
                        h.0)
              ]
      ]
  perform-lookup services fresh q (clone_reference id interface) table h =
      elim (stub-cases id table) [
        | inl absent ↦ rw (absent, clone_reference_now)
        | inr (inl null) ↦ rw (null, clone_reference_now)
        | inr (inr (stub, present)) ↦
            rw (present, clone_reference_now)
              (append_stub-lookup services.registry fresh q table (some stub.instance) interface
                h.0)
      ]

  run-lookup :
      (services : Services I) (q : List ℕ) (calls : List (List ℕ × Op)) (table : Table I)
      → All (Untouched q) calls
      → lookup q (run services calls table) ≡ lookup q table
  unfolding run
  run-lookup services q [] table h = refl
  run-lookup services q ((fresh, op) ∷ calls) table h =
      run-lookup services q calls _ h.1 ∙ perform-lookup services fresh q op table h.0

  -- What a peer is answered where an id is not in the table
  abbrev pub IsRefused : Services I → List ℕ → Table I → Type 0
  IsRefused services id table =
      ((fresh interface service : List ℕ)
        → perform services (λ t. t) fresh (query_interface id interface service) table
          ≡ (table, raises no_instance))
      × ((fresh interface : List ℕ)
          → perform services (λ t. t) fresh (clone_reference id interface) table
            ≡ (table, raises no_instance))
      × ((fresh : List ℕ)
          → perform services (λ t. t) fresh (destroy_object id) table ≡ (table, raises no_instance))

  absent-IsRefused :
      (services : Services I) (b : ℕ) (id : List ℕ) (table : Table I)
      → lookup (b ∷ id) table ≡ none
      → IsRefused services (b ∷ id) table
  unfolding perform
  absent-IsRefused services b id table h = (
    λ fresh interface service. rw (h, query_interface_now),
    λ fresh interface. rw (h, clone_reference_now),
    λ fresh. rw (h, destroy_object_now),
  )

  destroy_present :
      (services : Services I) (b : ℕ) (id fresh : List ℕ) (table : Table I)
      (stub : Option (Entry I))
      → lookup (b ∷ id) table ≡ some stub
      → let ended = perform services (λ t. t) fresh (destroy_object (b ∷ id)) table in
        (ended.1 ≡ returns []) × (lookup (b ∷ id) ended.0 ≡ none)
  unfolding perform
  destroy_present services b id fresh table stub h = (
    rw (h, destroy_object_now),
    rw (h, destroy_object_now)
        (ground (arith, lookup-erase (b ∷ id) (b ∷ id) table, bytes_beq_iff (b ∷ id) (b ∷ id))),
  )

  -- An object that is in the table stays there through all calls that do not destroy it and do not
  -- get its id from the generator again; then its destruction succeeds, and from then on every call
  -- that names it is refused, whatever other calls come in between, as long as none gets its id.
  pub run-IsRefused :
      (services : Services I) (b : ℕ) (id fresh : List ℕ) (table : Table I)
      (stub : Option (Entry I)) (before after : List (List ℕ × Op))
      → lookup (b ∷ id) table ≡ some stub
      → All (Untouched (b ∷ id)) before
      → All (Untouched (b ∷ id)) after
      → let held = run services before table in
        let ended = perform services (λ t. t) fresh (destroy_object (b ∷ id)) held in
        (lookup (b ∷ id) held ≡ some stub)
        × (ended.1 ≡ returns [])
        × IsRefused services (b ∷ id) (run services after ended.0)
  run-IsRefused services b id fresh table stub before after h calm quiet =
      let held : lookup (b ∷ id) (run services before table) ≡ some stub =
        run-lookup services (b ∷ id) before table calm ∙ h in
      let gone = destroy_present services b id fresh (run services before table) stub held in
      (
        held,
        gone.0,
        absent-IsRefused services b id _ (run-lookup services (b ∷ id) after _ quiet ∙ gone.1),
      )
