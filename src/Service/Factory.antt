-- ===== src/Service/Factory.antt =====
-- `Factory` of include/mif/service/factory.h. A service is known by a number.
pub mod First
use mif.Prelude.{
  ltb, runtime_error, Result, ok, throws, ℕ, none, some, List, [], ◌∷◌, bytes_eq, nat_eq,
}
use mif.Prelude.Map.{lookup, emplace}

abbrev pub ServiceId : Type 0
ServiceId = ℕ

-- A creator: what `std::bind` makes of a class and its arguments, or the function that returns an
-- instance
pub data Creator {ℓ} (Bound : Type ℓ) : Type ℓ where
  binds : Bound → Creator Bound
  returns : ℕ → Creator Bound

-- A call of `AddClass` or `AddInstance`
pub data Registration {ℓ} (Bound : Type ℓ) : Type ℓ where
  add_class : ServiceId → Bound → Registration Bound
  add_instance : ServiceId → ℕ → Registration Bound

-- `m_creators.insert`
pub register {ℓ} :
    {Bound : Type ℓ}
    → Registration Bound
    → List (ServiceId × Creator Bound)
    → List (ServiceId × Creator Bound)
register (add_class id bound) creators = emplace ltb id (binds bound) creators
register (add_instance id service) creators = emplace ltb id (returns service) creators

pub register_all {ℓ} :
    {Bound : Type ℓ}
    → List (Registration Bound)
    → List (ServiceId × Creator Bound)
    → List (ServiceId × Creator Bound)
register_all [] creators = creators
register_all (r ∷ rs) creators = register_all rs (register r creators)

module _ {ℓ} {Bound : Type ℓ} (call_bound : Bound → Result ℕ) where
  -- `creator()`
  pub call : Creator Bound → Result ℕ
  call (binds bound) = call_bound bound
  call (returns service) = ok service

  -- `Create`
  pub create : ServiceId → List (ServiceId × Creator Bound) → Result ℕ
  create id creators = elim (lookup id creators) [ none ↦ throws runtime_error | some c ↦ call c ]
