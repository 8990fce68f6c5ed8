-- ===== src/Service/Query.antt =====
-- The search for an interface: `QueryInterface` of include/mif/service/iservice.h, `Query` of
-- include/mif/service/detail/service.h and `External` of src/mif/service/external.cpp. A type and an
-- object are known by numbers. A service that is a proxy of a remote one is not here.
pub mod Offers
mod Tests
use mif.Prelude.{nat_beq, if◌then◌else◌, ℕ, Bool, false, ◌||◌, Option, none, some}

-- `IService`
abbrev pub iservice : ℕ
iservice = 0

-- A `TBaseTypeTuple`: a type, its own tuple, and the rest of the tuple
pub data Bases : Type 0 where
  no_bases : Bases
  base : ℕ → Bases → Bases → Bases

-- `QueryInterface::Query`: the type itself, then its bases, then the rest
pub query_interface : Bases → ℕ → Bool
query_interface no_bases t = false
query_interface (base h bases rest) t =
    nat_beq h t || (query_interface bases t || query_interface rest t)

-- The services of a list: an object with its interfaces, or an `External` with the services that it
-- holds
pub data Services : Type 0 where
  no_services : Services
  plain : ℕ → Bases → Services → Services
  external : ℕ → Bases → Services → Services → Services

-- `Query` of `Service_Impl__` without its last step: `IService`, or an interface of its class
pub own : ℕ → Bases → ℕ → Option ℕ
own object bases t =
    if nat_beq t iservice
    then some object
    else (if query_interface bases t then some object else none)

abbrev pub or_else : Option ℕ → Option ℕ → Option ℕ
or_else none last = last
or_else (some object) last = some object

-- The loop of `_Mif_Remote_QueryRemoteInterface`: the object that gives the interface
pub query_first : Services → ℕ → Option ℕ
query_first no_services t = none
query_first (plain object bases rest) t = or_else (own object bases t) (query_first rest t)
query_first (external object bases held rest) t =
    or_else (or_else (own object bases t) (query_first held t)) (query_first rest t)

-- `External::Add`
pub add : Services → Services → Services
add no_services s = s
add (plain object bases rest) s = plain object bases (add rest s)
add (external object bases held rest) s = external object bases held (add rest s)
