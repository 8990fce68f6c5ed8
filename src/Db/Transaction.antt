-- ===== src/Db/Transaction.antt =====
-- `Db::Transaction` of include/mif/db/transaction.h and src/mif/db/transaction.cpp. A connection is
-- known by a number. What has been sent over the connections is a log, oldest first.
pub mod Lifetime
pub mod Move
mod Tests
use mif.Prelude.{
  if◌then◌else◌, invalid_argument, logic_error, runtime_error, Result, ok, throws, ℕ, Bool, true,
  false, not, Option, none, some, List, [], ◌∷◌, ◌++◌,
}

-- `Transaction::State`
pub data State : Type 0 where
  unknown init begin commit rollback : State

-- The texts that are sent: "BEGIN;", "COMMIT;" and "ROLLBACK;".
pub data Command : Type 0 where
  begins commits rolls_back : Command

pub record Entry : Type 0 where
  pub connection : ℕ
  pub command : Command
  pub accepted : Bool

abbrev pub Log : Type 0
Log = List Entry

-- `m_connection` and `m_state`
pub record Transaction : Type 0 where
  pub connection : Option ℕ
  pub state : State

-- A call of a method.
pub data Op : Type 0 where
  begins_op commits_op rolls_back_op : Op

pub is_init : State → Bool
is_init init = true
is_init _ = false

pub is_begin : State → Bool
is_begin begin = true
is_begin _ = false

-- The state after `ExecuteDirect` returned, or the rethrow of what it threw.
pub sent : Transaction → State → Result (Unit {0}) × Log → Result (Unit {0}) × Transaction × Log
sent t to (ok u, log) = (ok tt, record t { state = to }, log)
sent t to (throws e, log) = (throws logic_error, t, log)

-- Whether `IConnection::ExecuteDirect` throws, given what was sent before.
module _ (refuses : Log → ℕ → Command → Bool) where
  pub execute_direct : ℕ → Command → Log → Result (Unit {0}) × Log
  execute_direct c command log =
      let refused = refuses log c command in
      (
        if refused then throws runtime_error else ok tt,
        log ++ record { connection = c; command = command; accepted = not refused } ∷ [],
      )

  -- `try { ExecuteDirect(command); } catch (...) { throw logic_error; } m_state = to;`
  pub send : Transaction → ℕ → Command → State → Log → Result (Unit {0}) × Transaction × Log
  send t c command to log = sent t to (execute_direct c command log)

  -- `Begin`, with the transaction and the log after the call
  pub begin_it : Transaction → Log → Result (Unit {0}) × Transaction × Log
  begin_it t log = elim t.connection [
    | none ↦ (throws logic_error, t, log)
    | some c ↦ if is_init t.state then send t c begins begin log else (throws logic_error, t, log)
  ]

  -- `Commit`
  pub commit_it : Transaction → Log → Result (Unit {0}) × Transaction × Log
  commit_it t log = elim t.connection [
    | none ↦ (throws logic_error, t, log)
    | some c ↦
        if is_begin t.state then send t c commits commit log else (throws logic_error, t, log)
  ]

  -- `Rollback`
  pub rollback_it : Transaction → Log → Result (Unit {0}) × Transaction × Log
  rollback_it t log = elim t.connection [
    | none ↦ (throws logic_error, t, log)
    | some c ↦
        if is_begin t.state then send t c rolls_back rollback log else (throws logic_error, t, log)
  ]

  -- The constructor. One that throws leaves no object.
  pub construct : Option ℕ → Bool → Log → Result Transaction × Log
  construct none open_it log = (throws invalid_argument, log)
  construct (some c) false log = (ok (record { connection = some c; state = init }), log)
  construct (some c) true log =
      let (r, t, log') = begin_it (record { connection = some c; state = init }) log in
      elim r [ ok _ ↦ (ok t, log') | throws e ↦ (throws e, log') ]

  -- The destructor: what `Rollback` throws is logged and swallowed.
  pub destroy : Transaction → Log → Log
  destroy t log = elim t.connection [
    | none ↦ log
    | some c ↦ if is_begin t.state then (rollback_it t log).2 else log
  ]

  -- Calls of a user who goes on after an exception.
  pub run : Transaction → List Op → Log → Transaction × Log
  run t [] log = (t, log)
  run t (begins_op ∷ ops) log = run (begin_it t log).1 ops (begin_it t log).2
  run t (commits_op ∷ ops) log = run (commit_it t log).1 ops (commit_it t log).2
  run t (rolls_back_op ∷ ops) log = run (rollback_it t log).1 ops (rollback_it t log).2

-- What is left of the object that is moved from.
abbrev pub moved_from : Transaction
moved_from = record { connection = none; state = unknown }

-- The move constructor: the new object and the old one.
pub move_construct : Transaction → Transaction × Transaction
move_construct t = (record { connection = t.connection; state = t.state }, moved_from)

-- Move assignment `target = std::move(source)` of two objects: the target and the source after it.
pub move_assign : Transaction → Transaction → Transaction × Transaction
move_assign target source =
    (record target { connection = source.connection; state = source.state }, moved_from)
