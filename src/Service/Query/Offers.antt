-- ===== src/Service/Query/Offers.antt =====
-- The search of include/mif/service/detail/service.h against the list of all that is offered.
use mif.Prelude.{
  Bool-cases, if◌then◌else◌, ◌==◌, ℕ, ◌≡◌, refl, sym, inl, inr, Option, none, some, List, [], ◌∷◌,
  ◌++◌, arith, bytes_eq, nat_eq,
}
use mif.Prelude.Map.{lookup}
use mif.Service.Query.{
  iservice, Bases, no_bases, base, query_interface, Services, no_services, plain, external, own,
  or_else, query_first, add,
}

-- The types of a tuple in the order of the search, each with the object
abbrev pub types : ℕ → Bases → List (ℕ × ℕ)
types object no_bases = []
types object (base h bases rest) = (h, object) ∷ types object bases ++ types object rest

-- What the services of a list offer, in order
abbrev pub offers : Services → List (ℕ × ℕ)
offers no_services = []
offers (plain object bases rest) = ((iservice, object) ∷ types object bases) ++ offers rest
offers (external object bases held rest) =
    (((iservice, object) ∷ types object bases) ++ offers held) ++ offers rest

or_else_assoc : (a b c : Option ℕ) → or_else a (or_else b c) ≡ or_else (or_else a b) c
or_else_assoc none b c = refl
or_else_assoc (some x) b c = refl

lookup-append :
    (t : ℕ) (xs ys : List (ℕ × ℕ)) → lookup t (xs ++ ys) ≡ or_else (lookup t xs) (lookup t ys)
unfolding lookup
lookup-append t [] ys = refl
lookup-append t ((k, v) ∷ xs) ys = elim (Bool-cases (k == t)) [
  | inl e ↦ rw e refl
  | inr e ↦ rw (e, lookup-append t xs ys) refl
]

lookup-types :
    (t object : ℕ) (bases : Bases)
    → lookup t (types object bases) ≡ (if query_interface bases t then some object else none)
unfolding lookup query_interface
lookup-types t object no_bases = refl
lookup-types t object (base h bases rest) = ground (
  arith,
  lookup-append t (types object bases) (types object rest),
  lookup-types t object bases,
  lookup-types t object rest,
)

lookup-own :
    (t object : ℕ) (bases : Bases)
    → lookup t ((iservice, object) ∷ types object bases) ≡ own object bases t
unfolding lookup own
lookup-own t object bases = ground (arith, lookup-types t object bases)

-- The search of a service, through its interfaces and theirs, and through the services that an
-- `External` holds and that are held in these, gives an interface exactly if it is offered, and the
-- object that gives it is the first one of the list of all offers.
pub query_first-offers : (s : Services) (t : ℕ) → query_first s t ≡ lookup t (offers s)
unfolding query_first lookup
query_first-offers no_services t = refl
query_first-offers (plain object bases rest) t =
    rw (query_first-offers rest t, ← lookup-own t object bases)
      (sym (lookup-append t ((iservice, object) ∷ types object bases) (offers rest)))
query_first-offers (external object bases held rest) t =
    rw
      (
        query_first-offers rest t,
        query_first-offers held t,
        ← lookup-own t object bases,
        ← lookup-append t ((iservice, object) ∷ types object bases) (offers held),
      )
      (sym
        (lookup-append t (((iservice, object) ∷ types object bases) ++ offers held) (offers rest)))

-- What is added comes last: it is asked for an interface only where nothing before offers it.
pub query_first-add :
    (s added : Services) (t : ℕ)
    → query_first (add s added) t ≡ or_else (query_first s t) (query_first added t)
unfolding query_first add
query_first-add no_services added t = refl
query_first-add (plain object bases rest) added t =
    rw (query_first-add rest added t)
      (or_else_assoc (own object bases t) (query_first rest t) (query_first added t))
query_first-add (external object bases held rest) added t = rw (query_first-add rest added t) (
    or_else_assoc (or_else (own object bases t) (query_first held t)) (query_first rest t)
      (query_first added t))
