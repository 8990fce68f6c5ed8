-- ===== src/Net/Tcp/Order.antt =====
-- What a session of src/mif/net/tcp/detail/session.cpp writes.
use mif.Prelude.{
  if◌then◌else◌, ◌==◌, ℕ, ◌+◌, ◌≤◌, ◌≡◌, refl, ap, ◌∙◌, Bool, true, false, List, [], ◌∷◌, ◌++◌,
  arith, bytes_eq, nat_eq,
}
use mif.Net.Framing.{Buffer}
use mif.Net.Tcp.{
  Task, starts_write, gives_data, closes, Session, started, publish, close_me, on_read, execute,
  on_read_error, run_task, Reach, begun, publishes, closes_itself, reads, fails, runs, writes_byte,
}

-- How often a byte is in a buffer, and in several ones
unfoldable pub count : ℕ → Buffer → ℕ
count c [] = 0
count c (b ∷ bytes) = (if b == c then 1 else 0) + count c bytes

unfoldable pub counts : ℕ → List Buffer → ℕ
counts c [] = 0
counts c (b ∷ bs) = count c b + counts c bs

-- What is still to be written
abbrev pub queued : List Task → List Buffer
queued [] = []
queued (starts_write b ∷ tasks) = b ∷ queued tasks
queued (gives_data b ∷ tasks) = queued tasks
queued (closes ∷ tasks) = queued tasks

count-append : (c : ℕ) (xs ys : Buffer) → count c (xs ++ ys) ≡ count c xs + count c ys
unfolding count
count-append c [] ys = omega arith
count-append c (x ∷ xs) ys = omega (arith, count-append c xs ys)

counts-append : (c : ℕ) (xs ys : List Buffer) → counts c (xs ++ ys) ≡ counts c xs + counts c ys
unfolding counts
counts-append c [] ys = omega arith
counts-append c (x ∷ xs) ys = omega (arith, counts-append c xs ys)

counts-queued :
    (c : ℕ) (tasks : List Task) (task : Task)
    → counts c (queued (tasks ++ task ∷ []))
      ≡ counts c (queued tasks) + counts c (queued (task ∷ []))
unfolding counts
counts-queued c [] task = omega arith
counts-queued c (starts_write b ∷ tasks) task = omega (arith, counts-queued c tasks task)
counts-queued c (gives_data b ∷ tasks) task = counts-queued c tasks task
counts-queued c (closes ∷ tasks) task = counts-queued c tasks task

counts-first :
    (c : ℕ) (task : Task) (tasks : List Task)
    → counts c (queued (task ∷ tasks)) ≡ counts c (queued (task ∷ [])) + counts c (queued tasks)
unfolding counts
counts-first c (starts_write b) tasks = omega arith
counts-first c (gives_data b) tasks = omega arith
counts-first c closes tasks = omega arith

-- How often a byte went out, is in a write under way, or waits in the queue
abbrev pub total : ℕ → Session → ℕ
total c s = count c s.wire + counts c s.writes + counts c (queued s.tasks)

-- While the session is open the first number is the second one, afterwards it is no more than it.
abbrev pub IsWithin : Bool → ℕ → ℕ → Type 0
IsWithin true n m = n ≡ m
IsWithin false n m = n ≤ m

module _ (c : ℕ) where
  IsWithin-le : (is_open : Bool) (n m : ℕ) → IsWithin is_open n m → n ≤ m
  IsWithin-le true n m h = omega arith
  IsWithin-le false n m h = h

  IsWithin-same : (is_open : Bool) (n k m : ℕ) → n ≡ k → IsWithin is_open k m → IsWithin is_open n m
  IsWithin-same true n k m e h = e ∙ h
  IsWithin-same false n k m e h = omega arith

  started_write :
      (is_open : Bool) (b : Buffer) (writes : List Buffer) (out waiting m : ℕ)
      → IsWithin is_open (out + counts c writes + waiting + counts c (b ∷ [])) m
      → IsWithin is_open (out + counts c (if is_open then writes ++ b ∷ [] else writes) + waiting) m
  started_write true b writes out waiting m h = omega (arith, counts-append c writes (b ∷ []))
  started_write false b writes out waiting m h = omega arith

  run_task-IsWithin :
      (task : Task) (s : Session) (m : ℕ)
      → IsWithin s.is_open (total c s + counts c (queued (task ∷ []))) m
      → IsWithin (run_task task s).is_open (total c (run_task task s)) m
  unfolding run_task counts
  run_task-IsWithin (starts_write b) s m h =
      started_write s.is_open b s.writes (count c s.wire) (counts c (queued s.tasks)) m h
  run_task-IsWithin (gives_data b) s m h =
      IsWithin-same s.is_open (total c s) (total c s + 0) m (omega arith) h
  run_task-IsWithin closes s m h = omega (arith, IsWithin-le s.is_open (total c s + 0) m h)

  execute-IsWithin :
      (inside : Bool) (task : Task) (s : Session) (m : ℕ)
      → IsWithin s.is_open (total c s + counts c (queued (task ∷ []))) m
      → IsWithin (execute inside task s).is_open (total c (execute inside task s)) m
  unfolding execute
  execute-IsWithin true task s m h = run_task-IsWithin task s m h
  execute-IsWithin false task s m h =
      IsWithin-same s.is_open (total c (execute false task s))
        (total c s + counts c (queued (task ∷ []))) m (omega (arith, counts-queued c s.tasks task))
        h

  more : (is_open : Bool) (n m k : ℕ) → IsWithin is_open n m → IsWithin is_open (n + k) (m + k)
  more true n m k h = omega arith
  more false n m k h = omega arith

-- No byte goes out more often than it was published, whichever threads publish and however the
-- writes that are under way at a time mix: while the session is open, the bytes that went out, those
-- of the writes under way and those that wait for the executor are the bytes of the published
-- buffers, each as often as it was published; and after it is closed none is there more often.
pub Reach-IsWithin :
    {s : Session} {ps : List Buffer}
    → Reach s ps
    → (c : ℕ) → IsWithin s.is_open (total c s) (counts c ps)
unfolding started publish close_me on_read on_read_error counts count
Reach-IsWithin begun c = refl
Reach-IsWithin (publishes {s} {ps} inside b r) c =
    let added = counts-append c ps (b ∷ []) in
    rw added (
      execute-IsWithin c inside (starts_write b) s (counts c ps + counts c (b ∷ []))
        (more c s.is_open (total c s) (counts c ps) (counts c (b ∷ [])) (Reach-IsWithin r c)))
Reach-IsWithin (closes_itself {s} {ps} inside r) c =
    execute-IsWithin c inside closes s (counts c ps) (
      IsWithin-same c s.is_open (total c s + 0) (total c s) (counts c ps) (omega arith)
        (Reach-IsWithin r c))
Reach-IsWithin (reads {s} {ps} b r h) c = Reach-IsWithin r c
Reach-IsWithin (fails {s} {ps} r h) c = execute-IsWithin c true closes s (counts c ps) (
    IsWithin-same c s.is_open (total c s + 0) (total c s) (counts c ps) (omega arith)
      (Reach-IsWithin r c))
Reach-IsWithin (runs {s} {ps} task rest r e) c =
    let left = record s { tasks = rest } in
    let taken = ap (λ (tasks : List Task). counts c (queued tasks)) e in
    run_task-IsWithin c task left (counts c ps) (
      IsWithin-same c s.is_open (total c left + counts c (queued (task ∷ []))) (total c s)
        (counts c ps) (omega (arith, taken, counts-first c task rest)) (Reach-IsWithin r c))
Reach-IsWithin (writes_byte {s} {ps} before x b after r e) c =
    let next = record s { writes = before ++ b ∷ after; wire = s.wire ++ x ∷ [] } in
    let was = ap (counts c) e ∙ counts-append c before ((x ∷ b) ∷ after) in
    let now = counts-append c before (b ∷ after) in
    IsWithin-same c s.is_open (total c next) (total c s) (counts c ps)
      (omega (arith, was, now, count-append c s.wire (x ∷ []))) (Reach-IsWithin r c)

-- A session that published two buffers: both writes are under way
abbrev pub two_writes : Buffer → Buffer → Session
two_writes a b = record {
  tasks = [];
  writes = a ∷ b ∷ [];
  wire = [];
  delivered = [];
  is_reading = true;
  is_open = true;
}

Reach-two_writes : (a b : Buffer) → Reach (two_writes a b) (a ∷ b ∷ [])
unfolding started publish execute run_task
Reach-two_writes a b = publishes true b (publishes true a begun)

-- Two buffers that a client publishes one after the other may mix on the connection: after a byte
-- of the first a byte of the second may go out, whatever the buffers are.
pub Reach-mixed :
    (x y : ℕ) (a b : Buffer)
    → Reach (record (two_writes a b) { wire = x ∷ y ∷ [] }) ((x ∷ a) ∷ (y ∷ b) ∷ [])
Reach-mixed x y a b =
    writes_byte (a ∷ []) y b []
      (writes_byte [] x a ((y ∷ b) ∷ []) (Reach-two_writes (x ∷ a) (y ∷ b)) refl) refl
