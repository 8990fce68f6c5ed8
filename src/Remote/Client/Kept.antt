-- ===== src/Remote/Client/Kept.antt =====
-- What the map of responses holds after old ones are removed and a new one is stored.
use mif.Prelude.{
  bytes_beq_iff, ℕ, ◌≡◌, refl, false, none, some, List, [], ◌∷◌, arith, bytes_eq, nat_eq,
}
use mif.Prelude.Map.{lookup}
use mif.Prelude.Map.Laws.{emplace-eq-insert, lookup-insert}
use mif.Net.Http.WebService.{bytes_lt}
use mif.Serialization.Json.{Members}
use mif.Remote.Client.{Responses, clean_old_responses, is_old, store}

pub clean_old_responses-absent :
    (timeout now : ℕ) (q : List ℕ) (responses : Responses)
    → lookup q responses ≡ none
    → lookup q (clean_old_responses timeout now responses) ≡ none
unfolding lookup clean_old_responses
clean_old_responses-absent timeout now q [] h = refl
clean_old_responses-absent timeout now q ((uuid, (came, packet)) ∷ responses) h =
    ground (arith, clean_old_responses-absent timeout now q responses)

-- A response that is not old stays.
pub clean_old_responses-recent :
    (timeout now : ℕ) (q : List ℕ) (responses : Responses) (came : ℕ) (packet : Members)
    → lookup q responses ≡ some (came, packet)
    → is_old timeout now came ≡ false
    → lookup q (clean_old_responses timeout now responses) ≡ some (came, packet)
unfolding lookup clean_old_responses
clean_old_responses-recent timeout now q [] came packet h recent = cc
clean_old_responses-recent timeout now q ((uuid, (t, p)) ∷ responses) came packet h recent =
    ground (arith, clean_old_responses-recent timeout now q responses came packet)

pub store-own :
    (timeout now : ℕ) (q : List ℕ) (packet : Members) (responses : Responses)
    → lookup q responses ≡ none
    → lookup q (store timeout now q packet responses) ≡ some (now, packet)
unfolding store
store-own timeout now q packet responses h =
    let absent = clean_old_responses-absent timeout now q responses h in
    rw
      (emplace-eq-insert bytes_lt q (now, packet) (clean_old_responses timeout now responses)
        absent)
      (ground (
        arith,
        lookup-insert bytes_lt q q (now, packet) (clean_old_responses timeout now responses),
        bytes_beq_iff q q,
      ))
