-- ===== src/Service/PerThreadPool.antt =====
-- `Service::Detail::PerThreadPool` of src/mif/service/per_thread_pool.cpp. A thread and a service are
-- known by numbers; a service that the factory creates is not null.
pub mod Confined
mod Tests
use mif.Prelude.{
  ltb, Exception, non_standard, Result, ok, throws, ℕ, Bool, true, false, none, some, List,
  bytes_eq, nat_eq,
}
use mif.Prelude.Map.{lookup, erase, emplace}

-- What the check of a service through `ICheckable` comes to
pub data Check : Type 0 where
  not_checkable good bad : Check
  raises : Exception → Check

-- `m_services`
abbrev pub Services : Type 0
Services = List (ℕ × ℕ)

-- Whether the service is kept, or what goes through: only a `std::exception` is caught.
pub is_ok : Check → Result Bool
is_ok not_checkable = ok true
is_ok good = ok true
is_ok bad = ok false
is_ok (raises non_standard) = throws non_standard
is_ok (raises e) = ok false

-- `service = m_factory->Create(m_serviceId); m_services.emplace(id, service);`
create : ℕ → Services → Result ℕ → Result ℕ × Services
create thread m (throws e) = (throws e, m)
create thread m (ok service) = (ok service, emplace ltb thread service m)

-- The stored service after its check; a bad one is erased first.
checked : ℕ → Services → ℕ → Result Bool → Result ℕ → Result ℕ × Services
checked thread m service (throws e) made = (throws e, m)
checked thread m service (ok true) made = (ok service, m)
checked thread m service (ok false) made = create thread (erase thread m) made

-- `GetService` on a thread. `check` is the state of each service at this call, and `made` is what
-- the factory gives if it is asked. Other threads only change the entries of their own identifiers,
-- so the call is taken as one step.
pub get_service : (ℕ → Check) → Result ℕ → ℕ → Services → Result ℕ × Services
get_service check made thread m = elim (lookup thread m) [
  | none ↦ create thread m made
  | some service ↦ checked thread m service (is_ok (check service)) made
]
