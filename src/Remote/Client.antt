-- ===== src/Remote/Client.antt =====
-- `PSClient` of include/mif/remote/ps_client.h: the data that come in (315-395), the requests that
-- wait for a response (263-313), and the responses that are kept (408-418).
pub mod Kept
pub mod Waiting
pub mod Served
use mif.Prelude.{
  ltb, if◌then◌else◌, ℕ, ◌+◌, ◌-◌, Bool, false, ◌&&◌, Option, none, some, List, [], ◌∷◌, ◌++◌,
  bytes_eq, nat_eq,
}
use mif.Prelude.Map.{lookup, erase, emplace}
use mif.Net.Http.WebService.{bytes_lt}
use mif.Serialization.Json.{is_empty, Members, Library}
use mif.Remote.Errors.{
  Error, Reply, raises, returns, lift, thrown, unknown, serialization, raise_if, empty_data,
  empty_uuid, empty_instance, empty_interface, empty_method, not_unique, stub_not_found, no_channel,
  no_channel_not_closed, closed_by_server, expired, process_failed, no_cast, ◌>>=◌, ◌>>◌,
}
use mif.Remote.Packet.{
  deserializer, serializer, get_text, is_response, get_buffer, uuid_key, instance_key,
  interface_key, method_key,
}
use mif.Remote.Stub.{Chain, call}

-- The responses by their ids, each with the time at which it came
abbrev pub Responses : Type 0
Responses = List (List ℕ × (ℕ × Members))

pub record Client (S : Type 0) : Type 0 where
  pub stubs : List (List ℕ × Option (Chain S))
  pub responses : Responses
  pub services : S
  -- the buffers that were posted, and whether there is a channel, and one that can be closed
  pub posted : List (List ℕ)
  pub can_post : Bool
  pub can_close : Bool

-- The test of `CleanOldResponses`
abbrev pub is_old : ℕ → ℕ → ℕ → Bool
is_old timeout now came = ltb came now && ltb timeout (now - came)

unfoldable pub clean_old_responses : ℕ → ℕ → Responses → Responses
clean_old_responses timeout now [] = []
clean_old_responses timeout now ((uuid, (came, packet)) ∷ responses) =
    let others = clean_old_responses timeout now responses in
    if is_old timeout now came then others else (uuid, (came, packet)) ∷ others

-- A response that came in: an id that is there keeps what it has.
unfoldable pub store : ℕ → ℕ → List ℕ → Members → Responses → Responses
unfolding clean_old_responses
store timeout now uuid packet responses =
    emplace bytes_lt uuid (now, packet) (clean_old_responses timeout now responses)

-- What a buffer has to name
pub record Header : Type 0 where
  pub packet : Members
  pub uuid : List ℕ
  pub instance_id : List ℕ
  pub interface_id : List ℕ
  pub method : List ℕ
  pub answers : Bool

module _ (lib : Library) (texts : Error → List ℕ) (timeout : ℕ) where
  unfoldable pub read_header : List ℕ → Reply Header
  read_header buffer = do
    raise_if (is_empty buffer) empty_data
    packet ← lift (deserializer lib buffer)
    uuid ← lift (get_text lib uuid_key packet)
    raise_if (is_empty uuid) empty_uuid
    instance_id ← lift (get_text lib instance_key packet)
    raise_if (is_empty instance_id) empty_instance
    interface_id ← lift (get_text lib interface_key packet)
    raise_if (is_empty interface_id) empty_interface
    method ← lift (get_text lib method_key packet)
    raise_if (is_empty method) empty_method
    answers ← lift (is_response lib packet)
    returns record {
      packet = packet;
      uuid = uuid;
      instance_id = instance_id;
      interface_id = interface_id;
      method = method;
      answers = answers;
    }

  -- `Post`, and what is thrown where there is no channel
  abbrev pub post : {S : Type 0} → List ℕ → Client S → Client S × Reply (Unit {0})
  post buffer client =
      if client.can_post
      then (record client { posted = client.posted ++ buffer ∷ [] }, returns tt)
      else (client, raises (if client.can_close then no_channel else no_channel_not_closed))

  abbrev found : {A : Type 0} → Option (Option A) → Option A
  found none = none
  found (some stub) = stub

  unfoldable pub serve : {S : Type 0} → Header → Client S → Client S × Reply (Unit {0})
  serve header client = elim (found (lookup header.instance_id client.stubs)) [
    | none ↦ (client, raises stub_not_found)
    | some chain ↦
        let fresh =
          serializer lib false header.uuid header.instance_id header.interface_id header.method in
        let (services, response) = call lib texts chain client.services header.packet fresh in
        post (get_buffer lib response) (record client { services = services })
  ]

  unfoldable pub dispatch : {S : Type 0} → ℕ → Reply Header → Client S → Client S × Reply (Unit {0})
  unfolding serve store
  dispatch now (raises e) client = (client, raises e)
  dispatch now (returns header) client =
      if header.answers
      then (
        record client { responses = store timeout now header.uuid header.packet client.responses },
        returns tt,
      )
      else elim (lookup header.uuid client.responses) [
        | none ↦ serve header client
        | some other ↦ (client, raises not_unique)
      ]

  -- The three `catch` blocks: a `ProxyStubException` passes, all else is made one.
  abbrev rethrown : Error → Error
  rethrown (thrown message) = process_failed (thrown message)
  rethrown unknown = process_failed unknown
  rethrown (serialization f) = process_failed (serialization f)
  rethrown no_cast = process_failed no_cast
  rethrown e = e

  abbrev caught : {S : Type 0} → Client S × Reply (Unit {0}) → Client S × Reply (Unit {0})
  caught attempt =
      (attempt.0, elim attempt.1 [ raises e ↦ raises (rethrown e) | returns ready ↦ returns ready ])

  unfoldable pub process_data : {S : Type 0} → ℕ → List ℕ → Client S → Client S × Reply (Unit {0})
  unfolding read_header dispatch
  process_data now buffer client = caught (dispatch now (read_header buffer) client)

-- One round of the loop of `Send`: the time at its head, what came in until the lock is held (the
-- ids, times and packets that ProcessData stores), whether the client is closed then, and the time
-- at which old responses are removed.
pub record Round : Type 0 where
  pub clock : ℕ
  pub arrived : List (ℕ × (List ℕ × Members))
  pub closed : Bool
  pub cleaned : ℕ

unfoldable pub store_all : ℕ → List (ℕ × (List ℕ × Members)) → Responses → Responses
unfolding store
store_all timeout [] responses = responses
store_all timeout ((now, (uuid, packet)) ∷ arrived) responses =
    store_all timeout arrived (store timeout now uuid packet responses)

-- The loop, from the time `start`: none where the rounds end and the caller still waits
unfoldable pub wait : ℕ → ℕ → List ℕ → List Round → Responses → Responses × Option (Reply Members)
unfolding store_all
wait timeout start uuid [] responses = (responses, none)
wait timeout start uuid (round ∷ rounds) responses =
    let seen = store_all timeout round.arrived responses in
    let cleaned = clean_old_responses timeout round.cleaned seen in
    let others = clean_old_responses timeout round.cleaned (erase uuid seen) in
    let rest = wait timeout start uuid rounds cleaned in
    if ltb round.clock (start + timeout)
    then (if round.closed then (seen, some (raises closed_by_server)) else elim (lookup uuid seen) [
      | some (came, packet) ↦ (others, some (returns packet))
      | none ↦ rest
    ])
    else (responses, some (raises expired))
