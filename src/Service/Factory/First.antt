-- ===== src/Service/Factory/First.antt =====
-- Which creator a `Factory` of include/mif/service/factory.h calls.
use mif.Prelude.{
  ltb, nat_beq, Option-cases, if◌then◌else◌, runtime_error, Result, ok, throws, ℕ, ◌≡◌, refl, sym,
  ap, ◌∙◌, inl, inr, Option, none, some, List, [], ◌∷◌, arith, bytes_eq, nat_eq,
}
use mif.Prelude.Map.{lookup, emplace}
use mif.Prelude.Map.Laws.{lookup-insert, emplace-eq-insert, emplace_present}
use mif.Service.Factory.{
  ServiceId, Creator, binds, returns, Registration, add_class, add_instance, register, register_all,
  call, create,
}

module _ {ℓ} {Bound : Type ℓ} where
  abbrev or_else : Option (Creator Bound) → Option (Creator Bound) → Option (Creator Bound)
  or_else none last = last
  or_else (some c) last = some c

  -- The creator of the first registration of an id
  abbrev first_creator : ServiceId → List (Registration Bound) → Option (Creator Bound)
  first_creator id [] = none
  first_creator id (add_class i bound ∷ rs) =
      if nat_beq i id then some (binds bound) else first_creator id rs
  first_creator id (add_instance i service ∷ rs) =
      if nat_beq i id then some (returns service) else first_creator id rs

  absent_lem :
      (i id : ServiceId) (c : Creator Bound) (o : Option (Creator Bound))
      → (i ≡ id → o ≡ none)
      → (if nat_beq i id then some c else o) ≡ or_else o (if nat_beq i id then some c else none)
  absent_lem i id c none h = refl
  absent_lem i id c (some d) h = ground arith

  present_lem :
      (i id : ServiceId) (c w : Creator Bound) (o : Option (Creator Bound))
      → (i ≡ id → o ≡ some w)
      → o ≡ or_else o (if nat_beq i id then some c else none)
  present_lem i id c w none h = ground arith
  present_lem i id c w (some d) h = refl

  lookup-emplace :
      (i id : ServiceId) (c : Creator Bound) (m : List (ServiceId × Creator Bound))
      → lookup id (emplace ltb i c m)
        ≡ or_else (lookup id m) (if nat_beq i id then some c else none)
  lookup-emplace i id c m = elim (Option-cases (lookup i m)) [
    | inl e ↦
        rw (emplace-eq-insert ltb i c m e, lookup-insert ltb i id c m)
          (absent_lem i id c (lookup id m) (λ p. ap (λ (k : ℕ). lookup k m) (sym p) ∙ e))
    | inr (w, e) ↦
        rw (emplace_present ltb i c m e)
          (present_lem i id c w (lookup id m) (λ p. ap (λ (k : ℕ). lookup k m) (sym p) ∙ e))
  ]

  step_lem :
      (i id : ServiceId) (c : Creator Bound) (o last : Option (Creator Bound))
      → or_else (or_else o (if nat_beq i id then some c else none)) last
        ≡ or_else o (if nat_beq i id then some c else last)
  step_lem i id c none last = ground arith
  step_lem i id c (some d) last = refl

  lookup-register_all :
      (id : ServiceId) (rs : List (Registration Bound)) (m : List (ServiceId × Creator Bound))
      → lookup id (register_all rs m) ≡ or_else (lookup id m) (first_creator id rs)
  unfolding register_all register
  lookup-register_all id [] m = or_nothing (lookup id m)
    where
      or_nothing : (o : Option (Creator Bound)) → o ≡ or_else o none
      or_nothing none = refl
      or_nothing (some c) = refl
  lookup-register_all id (add_class i bound ∷ rs) m =
      lookup-register_all id rs (emplace ltb i (binds bound) m)
      ∙ ap (λ o. or_else o (first_creator id rs)) (lookup-emplace i id (binds bound) m)
      ∙ step_lem i id (binds bound) (lookup id m) (first_creator id rs)
  lookup-register_all id (add_instance i service ∷ rs) m =
      lookup-register_all id rs (emplace ltb i (returns service) m)
      ∙ ap (λ o. or_else o (first_creator id rs)) (lookup-emplace i id (returns service) m)
      ∙ step_lem i id (returns service) (lookup id m) (first_creator id rs)

module _ {ℓ} {Bound : Type ℓ} (call_bound : Bound → Result ℕ) where
  -- What the creator of the first registration of an id gives, and an error where there is none
  abbrev pub first_answer : ServiceId → List (Registration Bound) → Result ℕ
  first_answer id [] = throws runtime_error
  first_answer id (add_class i bound ∷ rs) =
      if nat_beq i id then call_bound bound else first_answer id rs
  first_answer id (add_instance i service ∷ rs) =
      if nat_beq i id then ok service else first_answer id rs

  called : (o : Option (Creator Bound)) → Result ℕ
  unfolding call
  called none = throws runtime_error
  called (some c) = call call_bound c

  create-called :
      (id : ServiceId) (m : List (ServiceId × Creator Bound)) (o : Option (Creator Bound))
      → lookup id m ≡ o
      → create call_bound id m ≡ called o
  unfolding create called
  create-called id m none e = rw (e, create) refl
  create-called id m (some c) e = rw (e, create) refl

  called-first_creator :
      (id : ServiceId) (rs : List (Registration Bound))
      → called (first_creator id rs) ≡ first_answer id rs
  unfolding called call
  called-first_creator id [] = refl
  called-first_creator id (add_class i bound ∷ rs) = ground (arith, called-first_creator id rs)
  called-first_creator id (add_instance i service ∷ rs) = ground (arith, called-first_creator id rs)

  -- A factory that was filled by any registrations creates what the first of them for the id
  -- gives: a later one for the same id changes nothing, and an id without one is an error.
  pub create-first_answer :
      (id : ServiceId) (rs : List (Registration Bound))
      → create call_bound id (register_all rs []) ≡ first_answer id rs
  unfolding lookup
  create-first_answer id rs =
      create-called id (register_all rs []) (first_creator id rs) (lookup-register_all id rs [])
      ∙ called-first_creator id rs
