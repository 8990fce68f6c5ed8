-- ===== src/Remote/Call.antt =====
-- A call from end to end: two clients of `PSClient` on one connection, and the `Send` of the one,
-- which posts a request and waits for its response (include/mif/remote/ps_client.h, 263-313).
pub mod Headers
pub mod Ends
pub mod Arrivals
pub mod Answers
pub mod Faithful
pub mod Hidden
use mif.Prelude.{
  ltb, if◌then◌else◌, length, drop, ℕ, ◌+◌, Bool, false, Option, none, some, List, [], ◌∷◌,
}
use mif.Serialization.Json.{Members, Library}
use mif.Remote.Errors.{Error, Reply, raises, returns, expired}
use mif.Remote.Client.{Client, Round, post, process_data, wait}

-- The times of one call: when the loop of `Send` begins, and when it begins to wait for the response;
-- when the request is handled, when the response comes in, and when old responses are removed
pub record Times : Type 0 where
  pub start : ℕ
  pub waiting : ℕ
  pub handled : ℕ
  pub answered : ℕ
  pub cleaned : ℕ

-- `wait_for` waits for the time of the timeout; then the head of the loop looks at the clock again.
abbrev pub rounds : ℕ → Times → List Round
rounds timeout times =
    record { clock = times.start; arrived = []; closed = false; cleaned = times.cleaned }
    ∷ record {
      clock = times.waiting + timeout;
      arrived = [];
      closed = false;
      cleaned = times.cleaned;
    }
    ∷ []

-- Whether the response comes while `wait_for` waits
abbrev pub in_time : ℕ → Times → Bool
in_time timeout times = ltb times.answered (times.waiting + timeout)

abbrev reply_or_expired : Option (Reply Members) → Reply Members
reply_or_expired none = raises expired
reply_or_expired (some reply) = reply

module _ (lib : Library) (texts : Error → List ℕ) (timeout : ℕ) where
  -- What the connection brings to a client, one buffer after another; an exception of one is seen by
  -- the connection only.
  unfoldable pub receive_all : {L : Type 0} → ℕ → List (List ℕ) → Client L → Client L
  receive_all now [] client = client
  receive_all now (buffer ∷ buffers) client =
      receive_all now buffers (process_data lib texts timeout now buffer client).0

  -- The loop of waiting, over the responses that are there when `wait_for` ends
  abbrev waited : {L : Type 0} → Times → List ℕ → Client L → Client L × Reply Members
  waited times request_id client =
      let (responses, reply) =
        wait timeout times.start request_id (rounds timeout times) client.responses in
      (record client { responses = responses }, reply_or_expired reply)

  -- The peer handles what was posted, and what it posts comes back: while the caller waits for its
  -- response, or after the caller has stopped.
  unfoldable pub exchange :
      {L S : Type 0}
      → Times
      → List ℕ
      → List ℕ
      → Client L
      → Client S
      → (Client L × Client S) × Reply Members
  unfolding receive_all
  exchange times request_id buffer local peer =
      let handled = (process_data lib texts timeout times.handled buffer peer).0 in
      let answers = drop (length peer.posted) handled.posted in
      let (found, reply) = waited times request_id (receive_all times.answered answers local) in
      let (left, late) = waited times request_id local in
      if in_time timeout times
      then ((found, handled), reply)
      else ((receive_all times.answered answers left, handled), late)

  abbrev pub sent :
      {L S : Type 0}
      → Times
      → List ℕ
      → List ℕ
      → Client S
      → Client L × Reply (Unit {0})
      → (Client L × Client S) × Reply Members
  sent times request_id buffer peer (local, raises e) = ((local, peer), raises e)
  sent times request_id buffer peer (local, returns ready) =
      exchange times request_id buffer local peer

  -- `Send` over a connection that brings each buffer at once
  unfoldable pub send :
      {L S : Type 0}
      → Times
      → List ℕ
      → List ℕ
      → Client L × Client S
      → (Client L × Client S) × Reply Members
  unfolding exchange
  send times request_id buffer (local, peer) =
      sent times request_id buffer peer (post lib texts timeout buffer local)
