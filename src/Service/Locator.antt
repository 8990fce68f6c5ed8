-- ===== src/Service/Locator.antt =====
-- `Service::Detail::Locator` of src/mif/service/locator.cpp. A service is known by a number, its
-- address.
pub mod Refine
mod Tests
use mif.Prelude.{
  ltb, invalid_argument, Result, ok, throws, ℕ, Bool, true, false, none, some, List, [], ◌∷◌,
  bytes_eq, nat_eq,
}
use mif.Prelude.Map.{lookup, insert, erase}

-- `m_services`
abbrev pub Locator : Type 0
Locator = List (ℕ × ℕ)

-- `Get`
pub get : Locator → ℕ → Result ℕ
get m id = elim (lookup id m) [ none ↦ throws invalid_argument | some service ↦ ok service ]

-- `Exists`
pub exists : Locator → ℕ → Bool
exists m id = elim (lookup id m) [ none ↦ false | some service ↦ true ]

-- `Put`
pub put : Locator → ℕ → ℕ → Locator
put m id service = insert ltb id service m

-- `Remove`: the locator after the call, with what is thrown
pub remove : Locator → ℕ → Result (Unit {0}) × Locator
remove m id = elim (lookup id m) [
  | none ↦ (throws invalid_argument, m)
  | some service ↦ (ok tt, erase id m)
]

-- `Clear`
pub clear : Locator → Locator
clear m = []

-- A call of a client, and what it sees of it
pub data Call : Type 0 where
  gets tests removes : ℕ → Call
  puts : ℕ → ℕ → Call
  clears : Call

pub data Answer : Type 0 where
  service : Result ℕ → Answer
  tested : Bool → Answer
  done : Result (Unit {0}) → Answer

pub step : Locator → Call → Answer × Locator
step m (gets id) = (service (get m id), m)
step m (tests id) = (tested (exists m id), m)
step m (removes id) = (done (remove m id).0, (remove m id).1)
step m (puts id s) = (done (ok tt), put m id s)
step m clears = (done (ok tt), clear m)

pub run : Locator → List Call → List Answer
run m [] = []
run m (c ∷ cs) = (step m c).0 ∷ run (step m c).1 cs
