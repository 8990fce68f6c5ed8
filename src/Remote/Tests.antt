-- ===== src/Remote/Tests.antt =====
-- The theorems on remote calls at a counter that a peer has.
use mif.Prelude.{
  All, ℕ, ◌+◌, ◌<◌, ◌≡◌, refl, true, false, Option, none, some, List, [], ◌∷◌, ◌++◌, arith,
  bytes_eq, nat_eq,
}
use mif.Prelude.Map.{lookup}
use mif.Serialization.Json.{Json, Members, no_members, member}
use mif.Serialization.Json.Numbers.{uint32}
use mif.Serialization.Json.Shapes.{no_shapes, shape, integer}
use mif.Serialization.Json.Codec.{library, parse-print, print_filled}
use mif.Remote.Errors.{Error, raises, returns, expired, thrown, call_failed, null_stub}
use mif.Remote.Packet.{request, serializer, get_params}
use mif.Remote.Stub.{
  Method, Interface, Chain, contain_interface_id, find_method, all_methods, call, caught, packed,
}
use mif.Remote.Manager.{
  Services, Table, Op, create_object, destroy_object, query_interface, clone_reference, perform,
  run,
}
use mif.Remote.Manager.Lifetime.{run-IsRefused, Untouched, IsRefused}
use mif.Remote.Manager.Unregistered.{perform-unregistered}
use mif.Remote.Client.{Client, Round, wait, store_all}
use mif.Remote.Client.Waiting.{wait-IsAmong, IsAmong, arrivals_of, Arrival}
use mif.Remote.Client.Served.{wait-finds}
use mif.Remote.Proxy.{remote_call}
use mif.Remote.Call.{Times, send}
use mif.Remote.Call.Headers.{Names, AreNamed, ReadsBack, serializer-HasHeader}
use mif.Remote.Call.Faithful.{remote_call-local, IsReady}
use mif.Remote.Call.Hidden.{call-hidden}

texts : Error → List ℕ
texts e = 63 ∷ []

-- struct ICounter { virtual std::uint32_t Add(std::uint32_t) = 0; virtual void Fail() = 0; };
abbrev add : Method ℕ
add = record {
  name = 97 ∷ [];
  is_offered = λ s. true;
  params = shape (integer uint32) no_shapes;
  result = some (integer uint32);
  body = λ s args. (s + args.0, returns (s + args.0));
}

abbrev fail : Method ℕ
fail = record {
  name = 102 ∷ [];
  is_offered = λ s. true;
  params = no_shapes;
  result = none;
  body = λ s args. (s + 1, raises (thrown (110 ∷ 111 ∷ [])));
}

abbrev counter : Interface ℕ
counter = record { id = 67 ∷ []; methods = fail ∷ add ∷ [] }

abbrev names : List ℕ → Names
names method = record {
  uuid = 117 ∷ [];
  instance_id = 55 ∷ [];
  interface_id = 67 ∷ [];
  method = method;
}

names-AreNamed : (b : ℕ) → 0 < b → AreNamed (names (b ∷ []))
names-AreNamed b h = ground arith

abbrev client : {S : Type 0} → S → List (List ℕ × Option (Chain S)) → Client S
client s stubs = record {
  stubs = stubs;
  responses = [];
  services = s;
  posted = [];
  can_post = true;
  can_close = true;
}

abbrev local : Client (Unit {0})
local = client tt []

abbrev peer : Client ℕ
peer = client 40 ((55 ∷ [], some (counter ∷ [])) ∷ [])

library-ReadsBack : (m : Members) → ReadsBack library m
library-ReadsBack m = (print_filled (Json.object m), parse-print (Json.object m))

both-IsReady : (method : List ℕ) → IsReady (names method) (counter ∷ []) local peer
unfolding lookup
both-IsReady method = record {
  local_posts = refl;
  peer_posts = refl;
  held = refl;
  local_new = refl;
  peer_new = refl;
}

abbrev times : Times
times = record { start = 100; waiting = 101; handled = 110; answered = 120; cleaned = 130 }

-- The same call at a peer that needs longer than the timeout
abbrev late_times : Times
late_times = record { start = 100; waiting = 101; handled = 110; answered = 160; cleaned = 170 }

remote_call-local_example :
    let performed =
      remote_call library
        (send library texts 50 times)
        (117 ∷ [])
        (55 ∷ [])
        (67 ∷ [])
        (97 ∷ [])
        add.params
        add.result
        (2, tt)
        (local, peer) in
    (performed.1 ≡ returns 42) × (performed.0.1.services ≡ 42)
unfolding contain_interface_id find_method all_methods
remote_call-local_example =
    remote_call-local library texts 50 times (names (97 ∷ [])) (counter ∷ []) add (2, tt) local peer
      (omega arith) (omega arith) (λ m put. library-ReadsBack m) (library-ReadsBack _)
      (names-AreNamed 97 (omega arith)) (both-IsReady (97 ∷ [])) refl refl refl (tt, tt)
      (omega arith, tt) (tt, omega arith)

remote_call_fails :
    let performed =
      remote_call library
        (send library texts 50 times)
        (117 ∷ [])
        (55 ∷ [])
        (67 ∷ [])
        (102 ∷ [])
        fail.params
        fail.result
        tt
        (local, peer) in
    (performed.1 ≡ raises (call_failed (thrown (110 ∷ 111 ∷ [])))) × (performed.0.1.services ≡ 41)
unfolding contain_interface_id find_method all_methods
remote_call_fails =
    remote_call-local library texts 50 times (names (102 ∷ [])) (counter ∷ []) fail tt local peer
      (omega arith) (omega arith) (λ m put. library-ReadsBack m) (library-ReadsBack _)
      (names-AreNamed 102 (omega arith)) (both-IsReady (102 ∷ [])) refl refl refl tt tt
      (omega arith, (omega arith, tt))

remote_call_late :
    let performed =
      remote_call library
        (send library texts 50 late_times)
        (117 ∷ [])
        (55 ∷ [])
        (67 ∷ [])
        (97 ∷ [])
        add.params
        add.result
        (2, tt)
        (local, peer) in
    (performed.1 ≡ raises (call_failed expired)) × (performed.0.1.services ≡ 42)
unfolding contain_interface_id find_method all_methods
remote_call_late =
    remote_call-local library texts 50 late_times (names (97 ∷ [])) (counter ∷ []) add (2, tt) local
      peer (omega arith) (omega arith) (λ m put. library-ReadsBack m) (library-ReadsBack _)
      (names-AreNamed 97 (omega arith)) (both-IsReady (97 ∷ [])) refl refl refl (tt, tt)
      (omega arith, tt) (tt, omega arith)

-- One service, 5, that is created by any id, and one registered interface
abbrev services : Services ℕ
services = record {
  registry = (67 ∷ []) ∷ [];
  create = λ id. returns (some 5);
  query = λ instance interface service. some (instance + 1);
}

abbrev table : Table ℕ
table = (55 ∷ [], some (record { instance = 5; interface = 67 ∷ [] })) ∷ []

abbrev other_calls : List ℕ → List (List ℕ × Op)
other_calls fresh =
    (fresh, query_interface (55 ∷ []) (67 ∷ []) []) ∷ (fresh, destroy_object fresh) ∷ []

other_calls-Untouched : (b : ℕ) → 55 < b → All (Untouched (55 ∷ [])) (other_calls (b ∷ []))
other_calls-Untouched b h = ground arith

run-IsRefused_example :
    let held = run services (other_calls (56 ∷ [])) table in
    let ended = perform services (λ t. t) [] (destroy_object (55 ∷ [])) held in
    (lookup (55 ∷ []) held ≡ some (some (record { instance = 5; interface = 67 ∷ [] })))
    × (ended.1 ≡ returns [])
    × IsRefused services (55 ∷ []) (run services (other_calls (57 ∷ [])) ended.0)
unfolding lookup
run-IsRefused_example =
    run-IsRefused services 55 [] [] table (some (record { instance = 5; interface = 67 ∷ [] }))
      (other_calls (56 ∷ [])) (other_calls (57 ∷ [])) refl (other_calls-Untouched 56 (omega arith))
      (other_calls-Untouched 57 (omega arith))

perform-unregistered_example :
    let made = perform services (λ t. t) (56 ∷ []) (create_object 1 (68 ∷ [])) table in
    (made.1 ≡ returns (56 ∷ []))
    × ((id asked searched : List ℕ)
        → (perform services (λ t. t) id (query_interface (56 ∷ []) asked searched) made.0).1
          ≡ raises null_stub)
    × ((id asked : List ℕ)
        → (perform services (λ t. t) id (clone_reference (56 ∷ []) asked) made.0).1
          ≡ raises null_stub)
unfolding lookup
perform-unregistered_example =
    perform-unregistered services (56 ∷ []) [] 68 1 5 table refl (ground arith, tt) refl

-- Two packets come in, the second one under the id that is waited for.
abbrev arrivals : List Arrival
arrivals =
    (20, (1 ∷ [], member [] (Json.boolean true) no_members)) ∷ (30, (2 ∷ [], no_members)) ∷ []

abbrev one_round : Round
one_round = record { clock = 10; arrived = arrivals; closed = false; cleaned = 40 }

abbrev quiet_round : Round
quiet_round = record { clock = 5; arrived = []; closed = false; cleaned = 6 }

wait-finds_example :
    (wait 50 5 (2 ∷ []) (quiet_round ∷ one_round ∷ []) []).1 ≡ some (returns no_members)
unfolding lookup
wait-finds_example =
    wait-finds 50 5 30 (2 ∷ []) no_members (quiet_round ∷ []) [] one_round
      ((20, (1 ∷ [], member [] (Json.boolean true) no_members)) ∷ []) [] refl
      ((omega arith, refl, tt), tt) (omega arith) refl (ground arith, tt) refl

wait-IsAmong_example :
    IsAmong (2 ∷ []) no_members ([] ++ arrivals_of (quiet_round ∷ one_round ∷ []))
unfolding store_all
wait-IsAmong_example =
    wait-IsAmong 50 5 (2 ∷ []) [] (quiet_round ∷ one_round ∷ []) no_members wait-finds_example

-- struct IDerived : Service::Inherit<ICounter> { virtual void A() = 0; };, by the name of ICounter's
abbrev reset : Method ℕ
reset = record {
  name = 97 ∷ [];
  is_offered = λ s. true;
  params = no_shapes;
  result = none;
  body = λ s args. (0, returns tt);
}

abbrev derived : Interface ℕ
derived = record { id = 68 ∷ []; methods = reset ∷ [] }

abbrev asked : Members
asked = serializer library true (117 ∷ []) (55 ∷ []) (67 ∷ []) (97 ∷ [])

call-hidden_example :
    call library texts (derived ∷ counter ∷ []) 40 asked no_members
    ≡ caught library texts no_members (packed library none (reset.body 40 tt) no_members)
unfolding contain_interface_id find_method get_params
call-hidden_example =
    call-hidden library texts derived (counter ∷ []) 40 (names (97 ∷ [])) asked no_members request
      reset tt (serializer-HasHeader library true (names (97 ∷ [])))
      (names-AreNamed 97 (omega arith)) (ground arith) refl refl refl
