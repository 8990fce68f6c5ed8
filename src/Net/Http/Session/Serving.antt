-- ===== src/Net/Http/Session/Serving.antt =====
-- How many requests a connection serves.
use mif.Prelude.{
  ok, length, All, ℕ, ◌≤◌, max, ◌≡◌, refl, ◌⊎◌, inl, true, false, some, List, [], ◌∷◌, ◌++◌,
  append-nil, append_assoc, arith,
}
use mif.Net.Http.Session.{
  Task, Session, Event, end_of_stream, read_error, read_upgrade, read_request, need_buffer,
  write_error, write_done, start, post, pop, on_written, step, Reach, begun, next,
}

-- What holds of a connection at any time: it never reads while a reply is under way, and at most
-- one reply waits. `served` is about the replies that were written.
pub record IsOrderly (pipeline_limit : ℕ) (s : Session) : Type 0 where
  pub limited : s.limit ≡ max pipeline_limit 1
  pub one : length s.tasks ≤ 1
  pub exclusive : s.reading ≡ true → (s.writing ≡ false) × (s.tasks ≡ [])
  pub busy : s.writing ≡ true → length s.tasks ≡ 1

step-IsOrderly :
    {n : ℕ} {s : Session} (t : Session) (e : Event)
    → IsOrderly n s
    → step s e ≡ some (ok t)
    → IsOrderly n t
unfolding step post on_written pop
step-IsOrderly t end_of_stream v h = ground arith
step-IsOrderly t read_error v h = ground arith
step-IsOrderly t read_upgrade v h = ground arith
step-IsOrderly t (read_request task) v h = ground arith
step-IsOrderly t need_buffer v h = ground arith
step-IsOrderly t write_error v h = ground arith
step-IsOrderly t write_done v h = ground arith

start-IsOrderly : (n : ℕ) → IsOrderly n (start n)
unfolding start
start-IsOrderly n = ground arith

-- At any time of a connection: a reply is written or a request is read, never both, and at most one
-- reply is queued, whatever the limit of the pipeline is.
pub Reach-IsOrderly : {n : ℕ} {s : Session} → Reach n s → IsOrderly n s
Reach-IsOrderly begun = start-IsOrderly _
Reach-IsOrderly (next t e r h) = step-IsOrderly t e (Reach-IsOrderly r) h

start-written : (n : ℕ) → (start n).written ≡ []
unfolding start
start-written n = refl

start-waiting :
    (n : ℕ)
    → start n ≡ record {
      limit = max n 1;
      tasks = [];
      reading = true;
      writing = false;
      is_shut = false;
      written = [];
    }
unfolding start
start-waiting n = refl

-- Nothing was written yet, or one reply was, and nothing is under way any more.
abbrev pub IsSpent : Session → Type 0
IsSpent s = (s.written ≡ []) ⊎ ((length s.written ≡ 1) × (s.reading ≡ false) × (s.writing ≡ false))

step-IsSpent :
    {n : ℕ} {s : Session} (t : Session) (e : Event)
    → 2 ≤ n
    → IsOrderly n s
    → IsSpent s
    → step s e ≡ some (ok t)
    → IsSpent t
unfolding step post on_written pop
step-IsSpent t end_of_stream m v p h = ground arith
step-IsSpent t read_error m v p h = ground arith
step-IsSpent t read_upgrade m v p h = ground arith
step-IsSpent t (read_request task) m v p h = ground arith
step-IsSpent t need_buffer m v p h = ground arith
step-IsSpent t write_error m v p h = ground arith
step-IsSpent t write_done m v p h = ground arith

-- With a pipeline limit of two or more (the default is 8) a connection serves one request: as soon
-- as its reply is written nothing is under way any more, also where the client asked to keep the
-- connection.
pub Reach-IsSpent : {n : ℕ} {s : Session} → 2 ≤ n → Reach n s → IsSpent s
Reach-IsSpent {n} m begun = inl (start-written n)
Reach-IsSpent m (next t e r h) = step-IsSpent t e m (Reach-IsOrderly r) (Reach-IsSpent m r) h

-- A session that waits for the next request, and one that writes the reply to it
abbrev pub waiting : ℕ → List Task → Session
waiting limit done = record {
  limit = limit;
  tasks = [];
  reading = true;
  writing = false;
  is_shut = false;
  written = done;
}

abbrev replying : ℕ → List Task → Task → Session
replying limit done t = record {
  limit = limit;
  tasks = t ∷ [];
  reading = false;
  writing = true;
  is_shut = false;
  written = done;
}

abbrev pub IsKept : Task → Type 0
IsKept t = t.keep_alive ≡ true

read-replying :
    (limit : ℕ) (done : List Task) (t : Task)
    → step (waiting limit done) (read_request t) ≡ some (ok (replying limit done t))
unfolding step post
read-replying limit done t = refl

replying-waiting :
    (limit : ℕ) (done : List Task) (t : Task)
    → limit ≤ 1
    → IsKept t
    → step (replying limit done t) write_done ≡ some (ok (waiting limit (done ++ t ∷ [])))
unfolding step on_written pop
replying-waiting limit done t h k = ground arith

serve_from :
    {n : ℕ} (done ts : List Task)
    → n ≤ 1
    → All IsKept ts
    → Reach n (waiting (max n 1) done)
    → Reach n (waiting (max n 1) (done ++ ts))
serve_from done [] h k r = rw (append-nil done) r
serve_from {n} done (t ∷ ts) h k r = rw (← append_assoc done (t ∷ []) ts) (
    serve_from (done ++ t ∷ []) ts h k.1 (
      next (waiting (max n 1) (done ++ t ∷ [])) write_done
        (next (replying (max n 1) done t) (read_request t) r (read-replying (max n 1) done t))
        (replying-waiting (max n 1) done t (omega arith) k.0)))

-- With a limit of one (or none, which is taken for one) a connection serves any number of requests
-- of a client that keeps it: their replies are written, in the order of the requests, and it reads
-- the next.
pub Reach-waiting :
    (n : ℕ) (ts : List Task) → n ≤ 1 → All IsKept ts → Reach n (waiting (max n 1) ts)
Reach-waiting n ts h k = serve_from [] ts h k (rw (← start-waiting n) begun)
