-- ===== src/Service/PerThreadPool/Confined.antt =====
-- What a thread gets from the pool.
use mif.Prelude.{
  ltb, nat_beq, Option-cases, if◌then◌else◌, Result, ok, throws, ℕ, ◌≡◌, refl, sym, ap, ◌∙◌, ◌≢◌,
  ◌⊎◌, inl, inr, Bool, true, false, none, some, arith, ℕ_discrete, bytes_eq, nat_eq,
}
use mathlib.Core.Path.{subst}
use mif.Prelude.Map.{erase, lookup}
use mif.Prelude.Map.Laws.{lookup-erase, lookup-insert, emplace-eq-insert}
use mif.Service.PerThreadPool.{Check, Services, is_ok, create, checked, get_service}

abbrev pub SameElsewhere : ℕ → Services → Services → Type 0
SameElsewhere thread m m' = (t : ℕ) → t ≢ thread → lookup t m' ≡ lookup t m

lookup-create :
    (thread : ℕ) (m : Services) (service t : ℕ)
    → lookup thread m ≡ none
    → lookup t (create thread m (ok service)).1
      ≡ (if nat_beq thread t then some service else lookup t m)
unfolding create
lookup-create thread m service t e =
    ap (lookup t) (emplace-eq-insert ltb thread service m e) ∙ lookup-insert ltb thread t service m

-- What a call does to the entries: those of other threads stay, and its own stays, goes, or
-- becomes the service that the factory made.
abbrev pub Changes : ℕ → Result ℕ → Services → Services → Type 0
Changes thread made m m' =
    SameElsewhere thread m m'
    × ((lookup thread m' ≡ lookup thread m)
        ⊎ ((lookup thread m' ≡ none) ⊎ ((s : ℕ) × (made ≡ ok s) × (lookup thread m' ≡ some s))))

create-Changes :
    (thread : ℕ) (m m' : Services) (made : Result ℕ)
    → lookup thread m' ≡ none
    → SameElsewhere thread m m'
    → Changes thread made m (create thread m' made).1
unfolding create
create-Changes thread m m' (throws e) absent same = (same, inr (inl absent))
create-Changes thread m m' (ok s) absent same = (
  λ t n. lookup-create thread m' s t absent ∙ ground (arith, same t n),
  inr (inr (s, refl, lookup-create thread m' s thread absent ∙ ground arith)),
)

checked-Changes :
    (thread : ℕ) (m : Services) (service : ℕ) (r : Result Bool) (made : Result ℕ)
    → Changes thread made m (checked thread m service r made).1
unfolding checked
checked-Changes thread m service (throws e) made = (λ t n. refl, inl refl)
checked-Changes thread m service (ok true) made = (λ t n. refl, inl refl)
checked-Changes thread m service (ok false) made =
    create-Changes thread m (erase thread m) made (lookup-erase thread thread m ∙ ground arith)
      (λ t n. lookup-erase thread t m ∙ ground arith)

get_service-absent :
    (check : ℕ → Check) (made : Result ℕ) (thread : ℕ) (m : Services)
    → lookup thread m ≡ none
    → get_service check made thread m ≡ create thread m made
unfolding get_service
get_service-absent check made thread m e = rw (e, get_service)

get_service-present :
    (check : ℕ → Check) (made : Result ℕ) (thread s : ℕ) (m : Services)
    → lookup thread m ≡ some s
    → get_service check made thread m ≡ checked thread m s (is_ok (check s)) made
unfolding get_service
get_service-present check made thread s m e = rw (e, get_service)

get_service-Changes :
    (check : ℕ → Check) (made : Result ℕ) (thread : ℕ) (m : Services)
    → Changes thread made m (get_service check made thread m).1
get_service-Changes check made thread m = elim (Option-cases (lookup thread m)) [
  | inl e ↦
      subst (λ (r : Result ℕ × Services). Changes thread made m r.1)
        (sym (get_service-absent check made thread m e))
        (create-Changes thread m m made e (λ t n. refl))
  | inr (s, e) ↦
      subst (λ (r : Result ℕ × Services). Changes thread made m r.1)
        (sym (get_service-present check made thread s m e))
        (checked-Changes thread m s (is_ok (check s)) made)
]

-- No service belongs to two threads.
abbrev pub Confined : Services → Type 0
Confined m = (t u s : ℕ) → lookup t m ≡ some s → lookup u m ≡ some s → t ≡ u

-- No thread has the service.
abbrev pub New : ℕ → Services → Type 0
New s m = (t : ℕ) → lookup t m ≢ some s

Changes-alone :
    (thread u s : ℕ) (made : Result ℕ) (m m' : Services)
    → Changes thread made m m'
    → ((n : ℕ) → made ≡ ok n → New n m)
    → Confined m
    → u ≢ thread
    → lookup thread m' ≡ some s
    → lookup u m' ≢ some s
Changes-alone thread u s made m m' (same, inl kept) fresh c n p q =
    n (c u thread s (sym (same u n) ∙ q) (sym kept ∙ p))
Changes-alone thread u s made m m' (same, inr (inl gone)) fresh c n p q = cc
Changes-alone thread u s made m m' (same, inr (inr (s', made_it, new))) fresh c n p q =
    fresh s' made_it u (sym (same u n) ∙ q ∙ sym p ∙ new)

-- If the factory makes services that no thread has, no service comes to belong to two threads,
-- whatever the checks say and whichever thread asks.
pub get_service-Confined :
    (check : ℕ → Check) (made : Result ℕ) (thread : ℕ) (m : Services)
    → ((s : ℕ) → made ≡ ok s → New s m)
    → Confined m
    → Confined (get_service check made thread m).1
get_service-Confined check made thread m fresh c t u s p q =
    let all = get_service-Changes check made thread m in
    let m' = (get_service check made thread m).1 in
    elim (ℕ_discrete t thread) [
      | yes here ↦ elim (ℕ_discrete u thread) [
        | yes there ↦ here ∙ sym there
        | no far ↦ absurd (
            Changes-alone thread u s made m _ all fresh c far
              (ap (λ (x : ℕ). lookup x m') (sym here) ∙ p) q)
      ]
      | no away ↦ elim (ℕ_discrete u thread) [
        | yes there ↦ absurd (
            Changes-alone thread t s made m _ all fresh c away
              (ap (λ (x : ℕ). lookup x m') (sym there) ∙ q) p)
        | no far ↦ c t u s (sym (all.0 t away) ∙ p) (sym (all.0 u far) ∙ q)
      ]
    ]

-- The entry of the thread is the service that it got.
abbrev Gets : ℕ → ℕ → Result ℕ × Services → Type 0
Gets thread s r = r.0 ≡ ok s → lookup thread r.1 ≡ some s

create-Gets :
    (thread s : ℕ) (m : Services) (made : Result ℕ)
    → lookup thread m ≡ none
    → Gets thread s (create thread m made) × ((create thread m made).0 ≡ ok s → made ≡ ok s)
unfolding create
create-Gets thread s m (throws e) absent = (λ h. cc, λ h. cc)
create-Gets thread s m (ok s') absent =
    (λ h. lookup-create thread m s' thread absent ∙ ground arith, λ h. h)

-- Where a service that was got comes from
abbrev pub Source : ℕ → ℕ → Services → Result Bool → Result ℕ → Type 0
Source thread s m check made = ((lookup thread m ≡ some s) × (check ≡ ok true)) ⊎ (made ≡ ok s)

checked-Gets :
    (thread s s' : ℕ) (m : Services) (check : Result Bool) (made : Result ℕ)
    → lookup thread m ≡ some s'
    → (checked thread m s' check made).0 ≡ ok s
    → (lookup thread (checked thread m s' check made).1 ≡ some s)
      × (((s' ≡ s) × (check ≡ ok true)) ⊎ (made ≡ ok s))
unfolding checked
checked-Gets thread s s' m (throws e) made p h = cc
checked-Gets thread s s' m (ok true) made p h = (ground arith, inl (ground arith, refl))
checked-Gets thread s s' m (ok false) made p h =
    let (got, source) =
      create-Gets thread s (erase thread m) made (lookup-erase thread thread m ∙ ground arith) in
    (got h, inr (source h))

-- What a thread gets: its own service, if that passes its check, and else a service that the
-- factory made. It is the entry of the thread from then on.
pub get_service-ok :
    (check : ℕ → Check) (made : Result ℕ) (thread s : ℕ) (m : Services)
    → (get_service check made thread m).0 ≡ ok s
    → (lookup thread (get_service check made thread m).1 ≡ some s)
      × Source thread s m (is_ok (check s)) made
get_service-ok check made thread s m h = elim (Option-cases (lookup thread m)) [
  | inl e ↦
      let eq = get_service-absent check made thread m e in
      let (got, source) = create-Gets thread s m made e in
      let h' = sym (ap (λ (r : Result ℕ × Services). r.0) eq) ∙ h in
      (ap (λ (r : Result ℕ × Services). lookup thread r.1) eq ∙ got h', inr (source h'))
  | inr (s', e) ↦
      let eq = get_service-present check made thread s' m e in
      let (got, source) =
        checked-Gets thread s s' m (is_ok (check s')) made e
          (sym (ap (λ (r : Result ℕ × Services). r.0) eq) ∙ h) in
      (
        ap (λ (r : Result ℕ × Services). lookup thread r.1) eq ∙ got,
        elim source [
          | inl (same, passed) ↦
              inl (e ∙ ap some same, ap (λ (x : ℕ). is_ok (check x)) (sym same) ∙ passed)
          | inr new ↦ inr new
        ],
      )
]
