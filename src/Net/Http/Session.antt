-- ===== src/Net/Http/Session.antt =====
-- The life of a connection in src/mif/net/http/detail/session.cpp: `Session::Read`, `OnRead`,
-- `OnWrite`, `Close`, and `Session::Queue`. An asynchronous call is a mark that it is under way; its
-- end is an event.
pub mod Serving
mod Tests
use mif.Prelude.{
  leb, if◌then◌else◌, runtime_error, Result, ok, throws, length, ℕ, suc, max, ◌≡◌, Bool, true,
  false, not, Option, none, some, List, [], ◌∷◌, ◌++◌,
}

-- What the queue needs to know of a reply: whether the connection is kept after it.
pub record Task : Type 0 where
  pub id : ℕ
  pub keep_alive : Bool

pub record Session : Type 0 where
  pub limit : ℕ
  -- `m_queue`, oldest first; the first task is the one that is written.
  pub tasks : List Task
  pub reading : Bool
  pub writing : Bool
  -- `Close` has shut the sending side.
  pub is_shut : Bool
  -- The replies that were written out
  pub written : List Task

-- The end of an asynchronous read or write
pub data Event : Type 0 where
  end_of_stream read_error read_upgrade : Event
  read_request : Task → Event
  need_buffer write_error write_done : Event

-- The session after `Run`: it reads.
pub start : ℕ → Session
start pipeline_limit = record {
  limit = max pipeline_limit 1;
  tasks = [];
  reading = true;
  writing = false;
  is_shut = false;
  written = [];
}

-- `Queue::Post`: the task is started if it is the only one.
pub post : Session → Task → Session
post s task = elim s.tasks [
  | [] ↦ record s { tasks = task ∷ []; writing = true }
  | t ∷ ts ↦ record s { tasks = s.tasks ++ task ∷ [] }
]

-- `Queue::Pop` of a queue with a first task: whether it was full, and the session after it
pop : Session → List Task → Session × Bool
pop s rest = (
  record s { tasks = rest; writing = elim rest [ [] ↦ false | t ∷ ts ↦ true ] },
  leb s.limit (suc (length rest)),
)

-- `OnWrite` without an error
pub on_written : Session → Result Session
unfolding pop
on_written s = elim s.tasks [
  | [] ↦ throws runtime_error
  | t ∷ rest ↦
      let done = record s { writing = false; written = s.written ++ t ∷ [] } in
      if not t.keep_alive
      then ok (record done { is_shut = true })
      else (let (popped, was_full) = pop done rest in
          ok (if was_full then record popped { reading = true } else popped))
]

-- `OnRead` and `OnWrite`; an event of a call that is not under way does not happen.
pub step : Session → Event → Option (Result Session)
step s end_of_stream =
    if s.reading then some (ok (record s { reading = false; is_shut = true })) else none
step s read_error = if s.reading then some (ok (record s { reading = false })) else none
step s read_upgrade =
    if s.reading then some (ok (record s { reading = false; is_shut = true })) else none
step s (read_request task) =
    if s.reading then some (ok (post (record s { reading = false }) task)) else none
step s need_buffer = if s.writing then some (ok s) else none
step s write_error = if s.writing then some (ok (record s { writing = false })) else none
step s write_done = if s.writing then some (on_written s) else none

-- The session after some events, each of which can happen
pub data Reach (pipeline_limit : ℕ) : Session → Type 0 where
  begun : Reach pipeline_limit (start pipeline_limit)
  next :
      {s : Session} (t : Session) (e : Event)
      → Reach pipeline_limit s
      → step s e ≡ some (ok t)
      → Reach pipeline_limit t
