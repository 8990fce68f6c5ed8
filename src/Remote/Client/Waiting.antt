-- ===== src/Remote/Client/Waiting.antt =====
-- What a caller that waits in `Send` gets.
use mif.Prelude.{
  ltb, Bool-cases, Option-cases, ◌==◌, All, All-append_left, All-append_right, bytes_beq_iff, ℕ,
  ◌+◌, ◌≡◌, refl, sym, ap, ◌∙◌, ◌⊎◌, inl, inr, Option, none, some, List, [], ◌∷◌, ◌++◌, arith,
  bytes_eq, nat_eq,
}
use mif.Prelude.Map.{lookup, insert, emplace}
use mif.Net.Http.WebService.{bytes_lt}
use mif.Serialization.Json.{Members}
use mif.Remote.Errors.{Reply, returns}
use mif.Remote.Client.{Responses, Round, clean_old_responses, store, store_all, wait}

-- A packet that came at a time under an id
abbrev pub Arrival : Type 0
Arrival = ℕ × (List ℕ × Members)

module _ (P : List ℕ → Members → Type 0) where
  abbrev pub AllResponses : Responses → Type 0
  AllResponses responses = All (λ (e : List ℕ × (ℕ × Members)). P e.0 e.1.1) responses

  abbrev pub AllArrivals : List Arrival → Type 0
  AllArrivals arrived = All (λ (a : Arrival). P a.1.0 a.1.1) arrived

  clean_old_responses-All :
      (timeout now : ℕ) (responses : Responses)
      → AllResponses responses
      → AllResponses (clean_old_responses timeout now responses)
  unfolding clean_old_responses
  clean_old_responses-All timeout now [] h = tt
  clean_old_responses-All timeout now ((uuid, (came, packet)) ∷ responses) h =
      ground (arith, clean_old_responses-All timeout now responses)

  insert-All :
      (uuid : List ℕ) (came : ℕ) (packet : Members) (responses : Responses)
      → P uuid packet
      → AllResponses responses
      → AllResponses (insert bytes_lt uuid (came, packet) responses)
  unfolding insert
  insert-All uuid came packet [] p h = (p, tt)
  insert-All uuid came packet ((q, (t, other)) ∷ responses) p h =
      ground (arith, insert-All uuid came packet responses p)

  store-All :
      (timeout now : ℕ) (uuid : List ℕ) (packet : Members) (responses : Responses)
      → P uuid packet
      → AllResponses responses
      → AllResponses (store timeout now uuid packet responses)
  unfolding store emplace
  store-All timeout now uuid packet responses p h = ground (
    arith,
    clean_old_responses-All timeout now responses h,
    insert-All uuid now packet (clean_old_responses timeout now responses) p,
  )

  store_all-All :
      (timeout : ℕ) (arrived : List Arrival) (responses : Responses)
      → AllArrivals arrived
      → AllResponses responses
      → AllResponses (store_all timeout arrived responses)
  unfolding store_all
  store_all-All timeout [] responses a h = h
  store_all-All timeout ((now, (uuid, packet)) ∷ arrived) responses a h =
      store_all-All timeout arrived _ a.1 (store-All timeout now uuid packet responses a.0 h)

  lookup-All :
      (uuid : List ℕ) (came : ℕ) (packet : Members) (responses : Responses)
      → AllResponses responses
      → lookup uuid responses ≡ some (came, packet)
      → P uuid packet
  unfolding lookup
  lookup-All uuid came packet [] h e = cc
  lookup-All uuid came packet ((q, (t, other)) ∷ responses) h e = elim (Bool-cases (q == uuid)) [
    | inl same ↦
        let key : q ≡ uuid = (bytes_beq_iff q uuid).0 same in
        let first : some (t, other) ≡ some (came, packet) = rw same at e in
        let value : other ≡ packet = ap packet_of first in rw (sym key, sym value) h.0
    | inr differs ↦ lookup-All uuid came packet responses h.1 (rw differs at e)
  ]
    where
      packet_of : Option (ℕ × Members) → Members
      packet_of none = packet
      packet_of (some x) = x.1

  -- Whatever holds of each packet with its id holds of the packet that the caller gets with its own.
  pub wait-All :
      (timeout start : ℕ) (uuid : List ℕ) (rounds : List Round) (responses : Responses)
      (packet : Members)
      → AllResponses responses
      → All (λ (round : Round). AllArrivals round.arrived) rounds
      → (wait timeout start uuid rounds responses).1 ≡ some (returns packet)
      → P uuid packet
  unfolding wait
  wait-All timeout start uuid [] responses packet h a e = cc
  wait-All timeout start uuid (round ∷ rounds) responses packet h a e =
      let seen = store_all timeout round.arrived responses in
      let fine = store_all-All timeout round.arrived responses a.0 h in
      let cleaned = clean_old_responses-All timeout round.cleaned seen fine in
      elim (Bool-cases (ltb round.clock (start + timeout))) [
        | inr late ↦ let got = rw late at e in cc
        | inl timely ↦ elim (Bool-cases round.closed) [
          | inl gone ↦ let got = rw (timely, gone) at e in cc
          | inr live ↦ elim (Option-cases (lookup uuid seen)) [
            | inl absent ↦
                wait-All timeout start uuid rounds _ packet cleaned a.1
                  (rw (timely, live, absent) at e)
            | inr ((came, other), found) ↦
                let got : some (returns other) ≡ some (returns packet) =
                  rw (timely, live, found) at e in
                lookup-All uuid came packet seen fine (found ∙ ap (λ m. some (came, m)) (reply got))
          ]
        ]
      ]
    where
      packet_of : Option (Reply Members) → Members
      packet_of (some (returns m)) = m
      packet_of _ = packet

      reply : {other : Members} → some (returns other) ≡ some (returns packet) → other ≡ packet
      reply e = ap packet_of e

abbrev pub IsAmong : List ℕ → Members → List Arrival → Type 0
IsAmong uuid packet [] = ¬ Unit {0}
IsAmong uuid packet ((now, (q, other)) ∷ arrivals) =
    ((q ≡ uuid) × (other ≡ packet)) ⊎ IsAmong uuid packet arrivals

-- What comes in during the rounds
abbrev pub arrivals_of : List Round → List Arrival
arrivals_of [] = []
arrivals_of (round ∷ rounds) = round.arrived ++ arrivals_of rounds

all-IsAmong :
    (whole arrived : List Arrival)
    → ((uuid : List ℕ) (packet : Members) → IsAmong uuid packet arrived → IsAmong uuid packet whole)
    → AllArrivals (λ uuid packet. IsAmong uuid packet whole) arrived
all-IsAmong whole [] within = tt
all-IsAmong whole ((now, (uuid, packet)) ∷ arrived) within = (
  within uuid packet (inl (refl, refl)),
  all-IsAmong whole arrived (λ q other there. within q other (inr there)),
)

All-rounds :
    (P : List ℕ → Members → Type 0) (rounds : List Round)
    → AllArrivals P (arrivals_of rounds)
    → All (λ (round : Round). AllArrivals P round.arrived) rounds
All-rounds P [] h = tt
All-rounds P (round ∷ rounds) h = (
  All-append_left _ round.arrived (arrivals_of rounds) h,
  All-rounds P rounds (All-append_right _ round.arrived (arrivals_of rounds) h),
)

-- What a caller gets from `Send` is a packet that came under the id of its own request, before or
-- while it waited: no caller gets the response to a request of another.
pub wait-IsAmong :
    (timeout start : ℕ) (uuid : List ℕ) (earlier : List Arrival) (rounds : List Round)
    (packet : Members)
    → (wait timeout start uuid rounds (store_all timeout earlier [])).1 ≡ some (returns packet)
    → IsAmong uuid packet (earlier ++ arrivals_of rounds)
wait-IsAmong timeout start uuid earlier rounds packet e =
    let whole = earlier ++ arrivals_of rounds in
    let P : List ℕ → Members → Type 0 = λ q other. IsAmong q other whole in
    let every = all-IsAmong whole whole (λ q other there. there) in
    wait-All P timeout start uuid rounds (store_all timeout earlier []) packet
      (store_all-All P timeout earlier [] (All-append_left _ earlier (arrivals_of rounds) every) tt)
      (All-rounds P rounds (All-append_right _ earlier (arrivals_of rounds) every)) e
