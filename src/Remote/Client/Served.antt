-- ===== src/Remote/Client/Served.antt =====
-- A response that comes in time reaches its caller.
use mif.Prelude.{
  ltb, Option-cases, All, bytes_beq_iff, ℕ, ◌+◌, ◌<◌, ◌≡◌, refl, ◌≢◌, inl, inr, true, false, none,
  some, List, [], ◌∷◌, ◌++◌, arith, bytes_eq, nat_eq,
}
use mif.Prelude.Map.{lookup, emplace}
use mif.Prelude.Map.Laws.{lookup-insert}
use mif.Net.Http.WebService.{bytes_lt}
use mif.Serialization.Json.{Members}
use mif.Remote.Errors.{returns}
use mif.Remote.Client.{Responses, Round, clean_old_responses, store, store_all, wait}
use mif.Remote.Client.Waiting.{Arrival}
use mif.Remote.Client.Kept.{clean_old_responses-absent, store-own}

-- The arrivals are of other ids.
abbrev pub AreOthers : List ℕ → List Arrival → Type 0
AreOthers uuid arrived = All (λ (a : Arrival). a.1.0 ≢ uuid) arrived

-- A round in which the caller neither gets its response nor gives up
abbrev pub IsQuiet : ℕ → ℕ → List ℕ → Round → Type 0
IsQuiet timeout start uuid round =
    (round.clock < start + timeout) × (round.closed ≡ false) × AreOthers uuid round.arrived

emplace-other :
    (uuid q : List ℕ) (value : ℕ × Members) (responses : Responses)
    → q ≢ uuid
    → lookup uuid responses ≡ none
    → lookup uuid (emplace bytes_lt q value responses) ≡ none
unfolding emplace
emplace-other uuid q value responses h absent = elim (Option-cases (lookup q responses)) [
  | inl new ↦
      rw (new, emplace)
        (ground (arith, lookup-insert bytes_lt q uuid value responses, bytes_beq_iff q uuid))
  | inr (old, there) ↦ rw (there, emplace) absent
]

store_all-others :
    (timeout : ℕ) (uuid : List ℕ) (arrived : List Arrival) (responses : Responses)
    → AreOthers uuid arrived
    → lookup uuid responses ≡ none
    → lookup uuid (store_all timeout arrived responses) ≡ none
unfolding store_all store
store_all-others timeout uuid [] responses others absent = absent
store_all-others timeout uuid ((now, (q, packet)) ∷ arrived) responses others absent =
    store_all-others timeout uuid arrived _ others.1 (
      emplace-other uuid q (now, packet) (clean_old_responses timeout now responses) others.0
        (clean_old_responses-absent timeout now uuid responses absent))

store_all-append :
    (timeout : ℕ) (xs ys : List Arrival) (responses : Responses)
    → store_all timeout (xs ++ ys) responses ≡ store_all timeout ys (store_all timeout xs responses)
unfolding store_all
store_all-append timeout [] ys responses = refl
store_all-append timeout ((now, (q, packet)) ∷ xs) ys responses =
    store_all-append timeout xs ys (store timeout now q packet responses)

wait-last :
    (timeout start now : ℕ) (uuid : List ℕ) (packet : Members) (earlier : List Arrival)
    (round : Round) (after : List Round) (responses : Responses)
    → lookup uuid responses ≡ none
    → round.clock < start + timeout
    → round.closed ≡ false
    → AreOthers uuid earlier
    → round.arrived ≡ earlier ++ (now, (uuid, packet)) ∷ []
    → (wait timeout start uuid (round ∷ after) responses).1 ≡ some (returns packet)
unfolding wait store_all
wait-last timeout start now uuid packet earlier round after responses absent timely live others
      came =
    let before_it = store_all timeout earlier responses in
    let seen : lookup uuid (store_all timeout round.arrived responses) ≡ some (now, packet) =
      rw (came, store_all-append timeout earlier ((now, (uuid, packet)) ∷ []) responses)
        (store-own timeout now uuid packet before_it
          (store_all-others timeout uuid earlier responses others absent)) in
    let in_time : ltb round.clock (start + timeout) ≡ true = ground arith in
    rw (in_time, live, seen) refl

-- A caller whose request is not answered yet gets the first packet that comes under its id, if this
-- comes before the deadline: through any number of rounds in which only other packets come and the
-- connection stays open, up to the round in which it is the last to come. It waits for no other
-- caller, and the response is given to it whatever comes later.
pub wait-finds :
    (timeout start now : ℕ) (uuid : List ℕ) (packet : Members) (before after : List Round)
    (round : Round) (earlier : List Arrival) (responses : Responses)
    → lookup uuid responses ≡ none
    → All (IsQuiet timeout start uuid) before
    → round.clock < start + timeout
    → round.closed ≡ false
    → AreOthers uuid earlier
    → round.arrived ≡ earlier ++ (now, (uuid, packet)) ∷ []
    → (wait timeout start uuid (before ++ round ∷ after) responses).1 ≡ some (returns packet)
unfolding wait
wait-finds timeout start now uuid packet [] after round earlier responses absent quiet timely live
      others came =
    wait-last timeout start now uuid packet earlier round after responses absent timely live others
      came
wait-finds timeout start now uuid packet (first ∷ before) after round earlier responses absent quiet
      timely live others came =
    let none_yet = store_all-others timeout uuid first.arrived responses quiet.0.2 absent in
    let seen = store_all timeout first.arrived responses in
    let in_time : ltb first.clock (start + timeout) ≡ true = ground (arith, quiet.0.0) in
    rw (in_time, quiet.0.1, none_yet)
      (wait-finds timeout start now uuid packet before after round earlier
        (clean_old_responses timeout first.cleaned seen)
        (clean_old_responses-absent timeout first.cleaned uuid seen none_yet) quiet.1 timely live
        others came)
