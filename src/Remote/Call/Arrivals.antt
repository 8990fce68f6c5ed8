-- ===== src/Remote/Call/Arrivals.antt =====
-- What the two clients do with the messages of a call.
use mif.Prelude.{
  ℕ, ◌≤◌, ◌<◌, ◌≡◌, refl, true, false, none, some, List, [], ◌∷◌, ◌++◌, arith, bytes_eq, nat_eq,
}
use mif.Prelude.Map.{lookup}
use mif.Serialization.Json.{Members, reparsed_members, Library}
use mif.Remote.Errors.{Error, returns, raises, expired}
use mif.Remote.Call.{Times, rounds}
use mif.Remote.Packet.{request, response, serializer, get_buffer}
use mif.Remote.Stub.{Chain, call}
use mif.Remote.Client.{Client, Responses, store, process_data, wait, dispatch, serve}
use mif.Remote.Client.Kept.{store-own}
use mif.Remote.Call.Headers.{
  Names, AreNamed, HasHeader, ReadsBack, reparsed-HasHeader, deserializer-get_buffer,
}
use mif.Remote.Call.Ends.{read_header-HasHeader}

module _ (lib : Library) (texts : Error → List ℕ) (timeout : ℕ) where
  -- A response that comes in is kept under its id.
  pub process_data-response :
      {L : Type 0} (now : ℕ) (names : Names) (message : Members) (local : Client L)
      → ReadsBack lib message
      → AreNamed names
      → HasHeader lib response names message
      → (process_data lib texts timeout now (get_buffer lib message) local).0 ≡ record local {
        responses = store timeout now names.uuid (reparsed_members message) local.responses;
      }
  unfolding process_data dispatch get_buffer
  process_data-response now names message local back named h =
      rw
        (read_header-HasHeader lib texts timeout response names (get_buffer lib message)
          (reparsed_members message) (ground arith) named back.0
          (deserializer-get_buffer lib message back)
          (reparsed-HasHeader lib response names message h))
        refl

  -- A request that comes in is answered by its stub.
  pub process_data-request :
      {S : Type 0} (now : ℕ) (names : Names) (message : Members) (peer : Client S) (chain : Chain S)
      → ReadsBack lib message
      → AreNamed names
      → HasHeader lib request names message
      → lookup names.uuid peer.responses ≡ none
      → lookup names.instance_id peer.stubs ≡ some (some chain)
      → peer.can_post ≡ true
      → let fresh =
          serializer lib false names.uuid names.instance_id names.interface_id names.method in
        let answer = call lib texts chain peer.services (reparsed_members message) fresh in
        (process_data lib texts timeout now (get_buffer lib message) peer).0
        ≡ record peer { services = answer.0; posted = peer.posted ++ get_buffer lib answer.1 ∷ [] }
  unfolding process_data dispatch serve get_buffer
  process_data-request now names message peer chain back named h unanswered held posts =
      rw
        (
          read_header-HasHeader lib texts timeout request names (get_buffer lib message)
              (reparsed_members message) (ground arith) named back.0
              (deserializer-get_buffer lib message back)
              (reparsed-HasHeader lib request names message h),
          unanswered,
          serve,
          held,
          posts,
        )
        refl

  -- A response that is kept is found by the caller that waits for it.
  pub wait-store :
      (times : Times) (now : ℕ) (uuid : List ℕ) (packet : Members) (responses : Responses)
      → 0 < timeout
      → lookup uuid responses ≡ none
      → (wait timeout times.start uuid
          (rounds timeout times)
          (store timeout now uuid packet responses)).1
        ≡ some (returns packet)
  unfolding wait store
  wait-store times now uuid packet responses h absent =
      rw (store-own timeout now uuid packet responses absent) (ground arith)

  -- A caller whose response has not come when the wait is over stops.
  pub wait-late :
      (times : Times) (uuid : List ℕ) (responses : Responses)
      → 0 < timeout
      → times.start ≤ times.waiting
      → lookup uuid responses ≡ none
      → (wait timeout times.start uuid (rounds timeout times) responses).1 ≡ some (raises expired)
  unfolding wait
  wait-late times uuid responses h later absent = rw absent (ground arith)
