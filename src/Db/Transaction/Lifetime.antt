-- ===== src/Db/Transaction/Lifetime.antt =====
-- What a transaction has done to its connection, over its whole life.
use mif.Prelude.{
  nat_beq, Bool-cases, if◌then◌else◌, runtime_error, ok, throws, ℕ, ◌≡◌, refl, sym, ap, ◌∙◌, ◌⊎◌,
  inl, inr, Bool, true, false, ◌&&◌, some, List, [], ◌∷◌, ◌++◌, append-nil, append_assoc, arith,
}
use mif.Db.Transaction.{
  State, unknown, init, begin, commit, rollback, Command, begins, commits, rolls_back, Log,
  Transaction, is_init, is_begin, execute_direct, send, sent, begin_it, commit_it, rollback_it,
  construct, destroy, Op, begins_op, commits_op, rolls_back_op, run,
}

-- The commands that a connection has carried out.
abbrev pub accepted_on : ℕ → Log → List Command
accepted_on c [] = []
accepted_on c (e ∷ log) =
    if nat_beq e.connection c && e.accepted
    then e.command ∷ accepted_on c log
    else accepted_on c log

pub accepted_on-append :
    (c : ℕ) (log log' : Log) → accepted_on c (log ++ log') ≡ accepted_on c log ++ accepted_on c log'
accepted_on-append c [] log' = refl
accepted_on-append c (e ∷ log) log' = ground (arith, accepted_on-append c log log')

-- The commands that lead to a state.
abbrev pub history : State → List Command
history unknown = []
history init = []
history begin = begins ∷ []
history commit = begins ∷ commits ∷ []
history rollback = begins ∷ rolls_back ∷ []

-- The transaction is on connection `c`, which had carried out `base` before it.
pub record Tracks (c : ℕ) (base : List Command) (t : Transaction) (log : Log) : Type 0 where
  pub own : t.connection ≡ some c
  pub done : accepted_on c log ≡ base ++ history t.state

abbrev entry : ℕ → Command → Bool → Log
entry c command accepted = record { connection = c; command = command; accepted = accepted } ∷ []

accepted_on-entry :
    (c : ℕ) (command : Command) (log : Log)
    → (accepted_on c (log ++ entry c command true) ≡ accepted_on c log ++ command ∷ [])
      × (accepted_on c (log ++ entry c command false) ≡ accepted_on c log)
accepted_on-entry c command log = ground (
  arith,
  accepted_on-append c log (entry c command true),
  accepted_on-append c log (entry c command false),
  append-nil (accepted_on c log),
)

module _ (refuses : Log → ℕ → Command → Bool) (c : ℕ) where
  refused_lem :
      (command : Command) (log : Log)
      → refuses log c command ≡ true
      → execute_direct refuses c command log ≡ (throws runtime_error, log ++ entry c command false)
  unfolding execute_direct
  refused_lem command log e = rw e

  accepted_lem :
      (command : Command) (log : Log)
      → refuses log c command ≡ false
      → execute_direct refuses c command log ≡ (ok tt, log ++ entry c command true)
  unfolding execute_direct
  accepted_lem command log e = rw e

module _ (refuses : Log → ℕ → Command → Bool) {c : ℕ} {base : List Command} where
  send-Tracks :
      (t : Transaction) (command : Command) (to : State) (log : Log)
      → Tracks c base t log
      → history to ≡ history t.state ++ command ∷ []
      → Tracks c base (send refuses t c command to log).1 (send refuses t c command to log).2
  unfolding send sent
  send-Tracks t command to log v h = elim (Bool-cases (refuses log c command)) [
    | inl e ↦
        rw (refused_lem refuses c command log e, send)
          (record { own = v.own; done = (accepted_on-entry c command log).1 ∙ v.done })
    | inr e ↦
        rw (accepted_lem refuses c command log e, send)
          (record {
            own = v.own;
            done =
                (accepted_on-entry c command log).0
                ∙ ap (λ (x : List Command). x ++ command ∷ []) v.done
                ∙ append_assoc base (history t.state) (command ∷ [])
                ∙ ap (λ (x : List Command). base ++ x) (sym h);
          })
  ]

  begin_it-Tracks :
      (t : Transaction) (log : Log)
      → Tracks c base t log
      → Tracks c base (begin_it refuses t log).1 (begin_it refuses t log).2
  unfolding begin_it is_init
  begin_it-Tracks t log v = ground (arith, send-Tracks t begins begin log v)

  commit_it-Tracks :
      (t : Transaction) (log : Log)
      → Tracks c base t log
      → Tracks c base (commit_it refuses t log).1 (commit_it refuses t log).2
  unfolding commit_it is_begin
  commit_it-Tracks t log v = ground (arith, send-Tracks t commits commit log v)

  pub rollback_it-Tracks :
      (t : Transaction) (log : Log)
      → Tracks c base t log
      → Tracks c base (rollback_it refuses t log).1 (rollback_it refuses t log).2
  unfolding rollback_it is_begin
  rollback_it-Tracks t log v = ground (arith, send-Tracks t rolls_back rollback log v)

  pub run-Tracks :
      (t : Transaction) (ops : List Op) (log : Log)
      → Tracks c base t log
      → Tracks c base (run refuses t ops log).0 (run refuses t ops log).1
  unfolding run
  run-Tracks t [] log v = v
  run-Tracks t (begins_op ∷ ops) log v =
      run-Tracks (begin_it refuses t log).1 ops (begin_it refuses t log).2 (begin_it-Tracks t log v)
  run-Tracks t (commits_op ∷ ops) log v =
      run-Tracks (commit_it refuses t log).1 ops (commit_it refuses t log).2
        (commit_it-Tracks t log v)
  run-Tracks t (rolls_back_op ∷ ops) log v =
      run-Tracks (rollback_it refuses t log).1 ops (rollback_it refuses t log).2
        (rollback_it-Tracks t log v)

module _ (refuses : Log → ℕ → Command → Bool) {c : ℕ} where
  -- What the constructor gives: an object in `Init`, or in `Begin` if it was asked to open.
  pub construct-Tracks :
      (open_it : Bool) (log : Log) {t : Transaction}
      → (construct refuses (some c) open_it log).0 ≡ ok t
      → Tracks c (accepted_on c log) t (construct refuses (some c) open_it log).1
  unfolding construct
  construct-Tracks false log {t} e = record {
    own = ground arith;
    done = ground (arith, append-nil (accepted_on c log));
  }
  construct-Tracks true log {t} e =
      ground
        (arith, begin_it-Tracks refuses {c = c} {base = accepted_on c log} fresh log fresh-Tracks)
    where
      fresh : Transaction
      fresh = record { connection = some c; state = init }

      fresh-Tracks : Tracks c (accepted_on c log) fresh log
      fresh-Tracks = record { own = refl; done = sym (append-nil (accepted_on c log)) }

-- How a transaction may have ended, after its connection had carried out `before`.
abbrev pub Ends : List Command → List Command → Type 0
Ends before all =
    (all ≡ before)
    ⊎ ((all ≡ before ++ begins ∷ commits ∷ []) ⊎ (all ≡ before ++ begins ∷ rolls_back ∷ []))

rollback_it-accepted :
    (refuses : Log → ℕ → Command → Bool) (c : ℕ) (t : Transaction) (log : Log)
    → ((l : Log) → refuses l c rolls_back ≡ false)
    → t.connection ≡ some c
    → t.state ≡ begin
    → (rollback_it refuses t log).1.state ≡ rollback
unfolding rollback_it is_begin send sent
rollback_it-accepted refuses c t log h own e =
    rw (own, rollback_it, e, accepted_lem refuses c rolls_back log (h log))

module _ (refuses : Log → ℕ → Command → Bool) (c : ℕ) (base : List Command) where
  destroy-Ends :
      (t : Transaction) (log : Log)
      → ((l : Log) → refuses l c rolls_back ≡ false)
      → Tracks c base t log
      → Ends base (accepted_on c (destroy refuses t log))
  unfolding destroy is_begin
  destroy-Ends t log h v = go t.state refl
    where
      rolled : Tracks c base (rollback_it refuses t log).1 (rollback_it refuses t log).2
      rolled = rollback_it-Tracks refuses t log v

      state-rollback_it : t.state ≡ begin → (rollback_it refuses t log).1.state ≡ rollback
      state-rollback_it e = rollback_it-accepted refuses c t log h v.own e

      go : (s : State) → t.state ≡ s → Ends base (accepted_on c (destroy refuses t log))
      go unknown e = inl (ground (arith, append-nil base))
      go init e = inl (ground (arith, append-nil base))
      go begin e = inr (inr (ground (arith, rolled, state-rollback_it)))
      go commit e = inr (inl (ground arith))
      go rollback e = inr (inr (ground arith))

-- The whole life of a transaction on a connection that never refuses a rollback: construction,
-- any calls of its methods, destruction. The connection has carried out nothing more than before,
-- or one BEGIN and then one COMMIT or one ROLLBACK: no transaction is left open, none is ended
-- twice, and what was committed is not rolled back.
pub lifetime-Ends :
    (refuses : Log → ℕ → Command → Bool) (c : ℕ) (open_it : Bool) (ops : List Op) (log : Log)
    {t : Transaction}
    → ((l : Log) → refuses l c rolls_back ≡ false)
    → (construct refuses (some c) open_it log).0 ≡ ok t
    → let (t', log') = run refuses t ops (construct refuses (some c) open_it log).1 in
      let all = accepted_on c (destroy refuses t' log') in
      let before = accepted_on c log in Ends before all
lifetime-Ends refuses c open_it ops log {t} h e =
    destroy-Ends refuses c (accepted_on c log) (run refuses t ops log').0 (run refuses t ops log').1
      h (run-Tracks refuses t ops log' (construct-Tracks refuses open_it log e))
  where
    log' : Log
    log' = (construct refuses (some c) open_it log).1
