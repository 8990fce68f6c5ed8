-- ===== src/Net/Tcp.antt =====
-- `Session` of src/mif/net/tcp/detail/session.cpp, on an executor with one thread. What is given to the
-- executor by its own thread runs at once; what another thread gives it waits in a queue. A write of
-- boost::asio hands its bytes on one by one, and several may be under way.
pub mod Order
mod Tests
use mif.Prelude.{if◌then◌else◌, ℕ, ◌≡◌, Bool, true, false, List, [], ◌∷◌, ◌++◌}
use mif.Net.Framing.{Buffer}

-- What is given to the executor: the start of a write, the client's `OnData`, and the closing
pub data Task : Type 0 where
  starts_write : Buffer → Task
  gives_data : Buffer → Task
  closes : Task

pub record Session : Type 0 where
  pub tasks : List Task
  -- What is left of the writes under way
  pub writes : List Buffer
  -- The bytes that went out
  pub wire : Buffer
  -- What `OnData` of the client got
  pub delivered : List Buffer
  pub is_reading : Bool
  pub is_open : Bool

-- `Start`
pub started : Session
started = record {
  tasks = [];
  writes = [];
  wire = [];
  delivered = [];
  is_reading = true;
  is_open = true;
}

-- A task that the executor runs. Closing the socket ends its writes; its read still reports what
-- it has, or an error. A write on a closed socket fails.
pub run_task : Task → Session → Session
run_task (starts_write b) s = record s {
  writes = if s.is_open then s.writes ++ b ∷ [] else s.writes;
}
run_task (gives_data b) s = record s { delivered = s.delivered ++ b ∷ [] }
run_task closes s = record s { is_open = false; writes = [] }

-- `m_socket.get_executor().execute`, called by the thread of the executor or by another one
pub execute : Bool → Task → Session → Session
unfolding run_task
execute true task s = run_task task s
execute false task s = record s { tasks = s.tasks ++ task ∷ [] }

-- `Publish` and `CloseMe`
pub publish : Bool → Buffer → Session → Session
unfolding execute
publish inside b s = execute inside (starts_write b) s

pub close_me : Bool → Session → Session
unfolding execute
close_me inside s = execute inside closes s

-- The handler of `async_read_some`, which the thread of the executor runs, without an error (the next
-- read is started) and with one. What the client's `OnData` publishes or closes are steps after it.
pub on_read : Buffer → Session → Session
unfolding execute
on_read b s = execute true (gives_data b) s

pub on_read_error : Session → Session
unfolding close_me
on_read_error s = record (close_me true s) { is_reading = false }

-- The histories of a session, with what was published. A write or a `Publish` that fails calls
-- `CloseMe`, which may happen at any time, as may calls of other threads; an exception of the client's
-- `OnData` is logged.
pub data Reach : Session → List Buffer → Type 0 where
  begun : Reach started []
  publishes :
      {s : Session} {ps : List Buffer} (inside : Bool) (b : Buffer)
      → Reach s ps
      → Reach (publish inside b s) (ps ++ b ∷ [])
  closes_itself :
      {s : Session} {ps : List Buffer} (inside : Bool) → Reach s ps → Reach (close_me inside s) ps
  reads :
      {s : Session} {ps : List Buffer} (b : Buffer)
      → Reach s ps
      → s.is_reading ≡ true
      → Reach (on_read b s) ps
  fails :
      {s : Session} {ps : List Buffer}
      → Reach s ps
      → s.is_reading ≡ true
      → Reach (on_read_error s) ps
  runs :
      {s : Session} {ps : List Buffer} (task : Task) (rest : List Task)
      → Reach s ps
      → s.tasks ≡ task ∷ rest
      → Reach (run_task task (record s { tasks = rest })) ps
  -- One of the writes under way hands a byte on.
  writes_byte :
      {s : Session} {ps : List Buffer} (before : List Buffer) (c : ℕ) (b : Buffer)
      (after : List Buffer)
      → Reach s ps
      → s.writes ≡ before ++ (c ∷ b) ∷ after
      → Reach (record s { writes = before ++ b ∷ after; wire = s.wire ++ c ∷ [] }) ps
