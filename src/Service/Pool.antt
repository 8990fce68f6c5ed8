-- ===== src/Service/Pool.antt =====
-- `Service::Detail::Pool` and its `Holder` of src/mif/service/pool.cpp. A service is known by its
-- address, by which the map is ordered.
pub mod Entries
pub mod Lending
pub mod Choice
mod Tests
use mif.Prelude.{
  ltb, leb, nat_beq, if◌then◌else◌, Exception, logic_error, runtime_error, Result, ok, throws,
  length, ℕ, Bool, true, false, not, ◌||◌, List, [], ◌∷◌, bytes_eq, nat_eq,
}
use mif.Prelude.Map.{emplace}

-- What the check of a service through `ICheckable` comes to; the pool catches no exception of it.
pub data Check : Type 0 where
  not_checkable good bad : Check
  raises : Exception → Check

-- `m_services`: each service, and whether it is busy
abbrev pub Services : Type 0
Services = List (ℕ × Bool)

-- How the loop of `GetService` ends
pub data Scanned : Type 0 where
  found : ℕ → Scanned
  exhausted : Scanned
  raised : Exception → Scanned

-- A service before what the loop leaves of the later ones
abbrev keep : ℕ × Bool → Services × Scanned → Services × Scanned
keep entry (m, r) = (entry ∷ m, r)

-- The loop: bad services are erased, busy ones too, and the first good service that is not busy
-- ends it.
pub scan : (ℕ → Check) → Services → Services × Scanned
scan check [] = ([], exhausted)
scan check ((s, busy) ∷ rest) =
    let later = scan check rest in
    let usable = if not busy then ((s, busy) ∷ rest, found s) else keep (s, busy) later in
    elim (check s) [
      | bad ↦ later
      | raises e ↦ ((s, busy) ∷ rest, raised e)
      | good ↦ usable
      | not_checkable ↦ usable
    ]

-- `iter->second = busy` for the entry of a service
pub mark : ℕ → Bool → Services → Services
mark s busy [] = []
mark s busy ((s', busy') ∷ m) = (s', (if nat_beq s' s then busy else busy')) ∷ mark s busy m

-- A service is in the map.
pub has : ℕ → Services → Bool
has s [] = false
has s ((s', busy) ∷ m) = nat_beq s' s || has s m

-- `Make<Holder>`: the service is marked as busy.
pub hold : ℕ → Services → Result ℕ × Services
hold s m = if has s m then (ok s, mark s true m) else (throws logic_error, m)

-- After the loop without a free service
pub make_new : ℕ → Result ℕ → Services → Result ℕ × Services
make_new limit made m =
    if leb limit (length m)
    then (throws runtime_error, m)
    else elim made [ throws e ↦ (throws e, m) | ok s ↦ hold s (emplace ltb s false m) ]

-- `GetService`, under its lock: `check` is the state of each service at this call, and `made` is
-- what the factory gives if it is asked.
pub get_service : (ℕ → Check) → ℕ → Result ℕ → Services → Result ℕ × Services
get_service check limit made m =
    let (kept, r) = scan check m in
    elim r [
      | found s ↦ hold s kept
      | exhausted ↦ make_new limit made kept
      | raised e ↦ (throws e, kept)
    ]

-- `~Holder`: a service that is not in the map any more is only logged.
pub release : ℕ → Services → Services
release s m = if has s m then mark s false m else m
