-- ===== src/Service/Query/Tests.antt =====
-- The search of an interface at concrete inputs.
use mif.Prelude.{◌≡◌, refl, some, bytes_eq, nat_eq}
use mif.Prelude.Map.{lookup}
use mif.Service.Query.{
  no_bases, base, Services, no_services, plain, external, own, query_interface, query_first,
}
use mif.Service.Query.Offers.{offers, query_first-offers}

-- The object 7 has the interface 2, which extends 1; the object 8, an `External`, holds it.
abbrev worker : Services
worker = plain 7 (base 2 (base 1 no_bases no_bases) no_bases) no_services

abbrev holder : Services
holder = external 8 no_bases worker no_services

query_first-holder : query_first holder 1 ≡ some 7
unfolding query_first own query_interface
query_first-holder = refl

query_first-offers_example : query_first holder 1 ≡ lookup 1 (offers holder)
query_first-offers_example = query_first-offers holder 1
