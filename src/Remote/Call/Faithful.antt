-- ===== src/Remote/Call/Faithful.antt =====
-- A remote call does what the local call does.
use mif.Prelude.{
  Bool-cases, if◌then◌else◌, drop-append_left, ℕ, ◌≤◌, ◌<◌, ◌≡◌, refl, ap, ◌∙◌, inl, inr, true,
  none, some, List, [], ◌∷◌, ◌++◌, bytes_eq, nat_eq,
}
use mif.Prelude.Map.{lookup}
use mif.Serialization.Json.{Members, reparsed_members, Library, done}
use mif.Serialization.Json.Shapes.{Els}
use mif.Serialization.Json.Storable.{AreLossless, AreStorable}
use mif.Remote.Errors.{Error, Reply, raises, returns, expired, call_failed, what, thrown}
use mif.Remote.Packet.{request, response, put_params_if_exists, serializer, get_buffer}
use mif.Remote.Stub.{Method, Chain, contain_interface_id, all_methods, find_method, call}
use mif.Remote.Client.{Client, post}
use mif.Remote.Proxy.{remote_call, wrapped, rethrown}
use mif.Remote.Call.{Times, send, exchange, sent, in_time}
use mif.Remote.Call.Headers.{
  Names, AreNamed, HasHeader, ReadsBack, reparsed-HasHeader, serializer-HasHeader,
}
use mif.Remote.Call.Ends.{put_params-IsFilled, call-found}
use mif.Remote.Call.Arrivals.{process_data-response, process_data-request, wait-store, wait-late}
use mif.Remote.Call.Answers.{
  relayed, IsWritable, IsAnswer, stub_answer, stub_answer-IsAnswer, fresh,
}

-- What the proxy throws: `RemoteCall` makes one exception of each `std::exception`.
abbrev pub called {ℓ} : {R : Type ℓ} → (Error → List ℕ) → Reply R → Reply R
called texts (raises e) = raises (wrapped (thrown (what texts e)))
called texts (returns value) = returns value

-- The two ends are ready for the request: the connection is open on both sides, the instance has a
-- stub, and the id of the request is new.
pub record IsReady {L S : Type 0} (names : Names) (chain : Chain S) (local : Client L)
    (peer : Client S) : Type 0 where
  pub local_posts : local.can_post ≡ true
  pub peer_posts : peer.can_post ≡ true
  pub held : lookup names.instance_id peer.stubs ≡ some (some chain)
  pub local_new : lookup names.uuid local.responses ≡ none
  pub peer_new : lookup names.uuid peer.responses ≡ none

module _ (lib : Library) (texts : Error → List ℕ) (timeout : ℕ) where
  -- What `Send` gives its caller: the response that came in time, or the exception of the timeout
  abbrev pub answer_in_time : {R : Type 0} → Times → Reply R → Reply R
  answer_in_time times reply = if in_time timeout times then reply else raises expired

  -- The exchange gives the caller what the stub answers, if it answers in time, and leaves the peer's
  -- services as the stub has left them.
  exchange-IsAnswer :
      {L S : Type 0} (times : Times) (names : Names) (message : Members) (chain : Chain S)
      (local : Client L) (peer : Client S)
      → let answer =
          call lib texts chain peer.services (reparsed_members message) (fresh lib texts names) in
        0 < timeout
        → times.start ≤ times.waiting
        → ReadsBack lib message
        → ReadsBack lib answer.1
        → AreNamed names
        → HasHeader lib request names message
        → HasHeader lib response names answer.1
        → IsReady names chain local peer
        → (after : Client L × Client S) × (exchange lib texts timeout times names.uuid
              (get_buffer lib message)
              local
              peer
            ≡ (after, answer_in_time times (returns (reparsed_members answer.1))))
          × (after.1.services ≡ answer.0)
  unfolding exchange
  exchange-IsAnswer times names message chain local peer positive later read answer_read named h
        responds ready =
      let answer =
        call lib texts chain peer.services (reparsed_members message) (fresh lib texts names) in
      let buffer = get_buffer lib message in
      let exchanged = exchange lib texts timeout times names.uuid buffer local peer in
      let handled =
        process_data-request lib texts timeout times.handled names message peer chain read named h
          ready.peer_new ready.held ready.peer_posts in
      let arrived =
        process_data-response lib texts timeout times.answered names answer.1 local answer_read
          named responds in
      let found =
        wait-store lib texts timeout times times.answered names.uuid (reparsed_members answer.1)
          local.responses positive ready.local_new in
      let missed =
        wait-late lib texts timeout times names.uuid local.responses positive later
          ready.local_new in
      let sent_back = drop-append_left peer.posted (get_buffer lib answer.1 ∷ []) in
      let reply = answer_in_time times (returns (reparsed_members answer.1)) in
      let replied : (exchanged.1 ≡ reply) × (exchanged.0.1.services ≡ answer.0) =
        elim (Bool-cases (in_time timeout times)) [
          | inl quick ↦
              (rw (quick, handled, sent_back, arrived, found) refl, rw (quick, handled) refl)
          | inr slow ↦ (rw (slow, missed) refl, rw (slow, handled) refl)
        ] in
      (exchanged.0, ap (λ (reply : Reply Members). (exchanged.0, reply)) replied.0, replied.1)

  -- Where there is a channel, the request goes out.
  send-exchange :
      {L S : Type 0} (times : Times) (uuid buffer : List ℕ) (local : Client L) (peer : Client S)
      → local.can_post ≡ true
      → send lib texts timeout times uuid buffer (local, peer)
        ≡ exchange lib texts timeout times uuid buffer
            (record local { posted = local.posted ++ buffer ∷ [] })
            peer
  unfolding send
  send-exchange times uuid buffer local peer posts =
      let open_channel : post lib texts timeout buffer local
          ≡ (record local { posted = local.posted ++ buffer ∷ [] }, returns tt) =
        rw posts refl in
      ap (sent lib texts timeout times uuid buffer peer) open_channel

  rethrown-relayed :
      {W R : Type 0} (world : W) (reply : Reply R)
      → rethrown lib (world, relayed texts reply) ≡ (world, called texts reply)
  rethrown-relayed world (raises e) = refl
  rethrown-relayed world (returns value) = refl

  -- A remote call through a proxy, over an open connection to a peer whose table has the instance,
  -- does what the local call does: the method that is found by its name in the stub's chain is called
  -- once, with the same arguments, its services are left as the method leaves them, and the caller
  -- gets the result, or one exception with the text of the one that was thrown, if the response comes
  -- before the wait of the timeout is over. If it comes later, the method has been called all the
  -- same, and the caller gets the exception of the timeout. The arguments and the result are of types
  -- that JSON stores without loss, the instance casts to the interface of the method, the names are
  -- not empty, no text has a zero byte, the id of the request is new on both sides, the timeout is
  -- not zero, and the JSON library reads back the request and the response that it prints.
  pub remote_call-local :
      {L S : Type 0} (times : Times) (names : Names) (chain : Chain S) (method : Method S)
      (args : Els method.params) (local : Client L) (peer : Client S)
      → let made = method.body peer.services args in
        let empty =
          serializer lib true names.uuid names.instance_id names.interface_id names.method in
        0 < timeout
        → times.start ≤ times.waiting
        → ((message : Members)
            → put_params_if_exists lib method.params args empty ≡ done message
            → ReadsBack lib message)
        → ReadsBack lib (stub_answer lib texts names method.result made).1
        → AreNamed names
        → IsReady names chain local peer
        → contain_interface_id chain names.interface_id ≡ true
        → find_method names.method (all_methods chain) ≡ some method
        → method.is_offered peer.services ≡ true
        → AreLossless method.params
        → AreStorable method.params args
        → IsWritable texts method.result made.1
        → let performed =
            remote_call lib
              (send lib texts timeout times)
              names.uuid
              names.instance_id
              names.interface_id
              names.method
              method.params
              method.result
              args
              (local, peer) in
          (performed.1
            ≡ (if in_time timeout times then called texts made.1 else raises (call_failed expired)))
          × (performed.0.1.services ≡ made.0)
  unfolding remote_call
  remote_call-local {L = L} {S = S} times names chain method args local peer positive later reads
        answer_reads named ready offered known casts lossless storable writable =
      let made = method.body peer.services args in
      let empty =
        serializer lib true names.uuid names.instance_id names.interface_id names.method in
      let filled =
        put_params-IsFilled lib method.params args request names empty lossless storable
          (serializer-HasHeader lib true names) in
      let message = filled.filled in
      let answer =
        call lib texts chain peer.services (reparsed_members message) (fresh lib texts names) in
      let found : answer ≡ stub_answer lib texts names method.result made =
        call-found lib texts chain peer.services names (reparsed_members message)
          (fresh lib texts names) request method args
          (reparsed-HasHeader lib request names message filled.header) named offered known
          filled.got
        ∙ rw casts refl in
      let stub = stub_answer-IsAnswer lib texts names method.result made.0 made.1 named writable in
      let done_by : (answer.0 ≡ made.0)
          × IsAnswer lib texts names method.result made.1 answer.1
          × ReadsBack lib answer.1 =
        rw found (stub.0, stub.1, answer_reads) in
      let posting : Client L = record local {
        posted = local.posted ++ get_buffer lib message ∷ [];
      } in
      let waiting : IsReady names chain posting peer = record {
        local_posts = ready.local_posts;
        peer_posts = ready.peer_posts;
        held = ready.held;
        local_new = ready.local_new;
        peer_new = ready.peer_new;
      } in
      let (after, exchanged, left) =
        exchange-IsAnswer times names message chain posting peer positive later
          (reads message filled.put) done_by.2 named filled.header done_by.1.header waiting in
      let performed =
        remote_call lib (send lib texts timeout times) names.uuid names.instance_id
          names.interface_id names.method method.params method.result args (local, peer) in
      let opened =
        send-exchange times names.uuid (get_buffer lib message) local peer ready.local_posts in
      elim (Bool-cases (in_time timeout times)) [
        | inl quick ↦
            let relays : performed ≡ (after, called texts made.1) =
              rw (filled.put, opened, exchanged, quick, done_by.1.accepted)
                (rethrown-relayed after made.1) in
            (rw (relays, quick) refl, rw relays (left ∙ done_by.0))
        | inr slow ↦
            let stops : performed ≡ (after, raises (call_failed expired)) =
              rw (filled.put, opened, exchanged, slow) refl in
            (rw (stops, slow) refl, rw stops (left ∙ done_by.0))
      ]
