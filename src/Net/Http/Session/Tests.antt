-- ===== src/Net/Http/Session/Tests.antt =====
-- The life of a connection at concrete inputs.
use mif.Prelude.{refl, true, false, [], ◌∷◌, arith}
use mif.Net.Http.Session.{
  Task, Session, read_request, write_done, start, post, on_written, step, Reach, begun, next,
}
use mif.Net.Http.Session.Serving.{IsSpent, waiting, Reach-IsSpent, Reach-waiting}

abbrev task : Task
task = record { id = 1; keep_alive = true }

-- The session of a limit of eight that writes its first reply, and the one that has written it
abbrev writes_one : Session
writes_one = record {
  limit = 8;
  tasks = task ∷ [];
  reading = false;
  writing = true;
  is_shut = false;
  written = [];
}

abbrev wrote_one : Session
wrote_one = record {
  limit = 8;
  tasks = [];
  reading = false;
  writing = false;
  is_shut = false;
  written = task ∷ [];
}

reached : Reach 8 wrote_one
unfolding start post on_written step
reached = next wrote_one write_done (next writes_one (read_request task) begun refl) refl

Reach-IsSpent_example : IsSpent wrote_one
Reach-IsSpent_example = Reach-IsSpent (omega arith) reached

Reach-waiting_example : Reach 1 (waiting 1 (task ∷ task ∷ task ∷ []))
Reach-waiting_example =
    Reach-waiting 1 (task ∷ task ∷ task ∷ []) (omega arith) (refl, (refl, (refl, tt)))
