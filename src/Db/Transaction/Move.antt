-- ===== src/Db/Transaction/Move.antt =====
-- What moving a transaction does to the duty of rolling it back.
use mif.Prelude.{
  Option-cases, ℕ, ◌≡◌, refl, ap, ◌∙◌, ◌≢◌, inl, inr, Bool, not, none, some, List, [], ◌∷◌, ◌++◌,
  append-nil, arith,
}
use mif.Db.Transaction.{
  begin, Command, begins, rolls_back, Log, Transaction, is_begin, execute_direct, send, sent,
  rollback_it, destroy, moved_from, move_construct, move_assign,
}
use mif.Db.Transaction.Lifetime.{Tracks, accepted_on, accepted_on-append}

-- After move construction, destroying the new object and the old one does what destroying the
-- object would have done: the duty is passed on, and is met once.
pub destroy-move_construct :
    (refuses : Log → ℕ → Command → Bool) (t : Transaction) (log : Log)
    → let (target, source) = move_construct t in
      destroy refuses source (destroy refuses target log) ≡ destroy refuses t log
unfolding destroy move_construct
destroy-move_construct refuses t log = refl

module _ (refuses : Log → ℕ → Command → Bool) (c d : ℕ) where
  execute_direct_other :
      (command : Command) (log : Log)
      → d ≢ c
      → accepted_on c (execute_direct refuses d command log).1 ≡ accepted_on c log
  unfolding execute_direct
  execute_direct_other command log n =
      accepted_on-append c log
        (record { connection = d; command = command; accepted = not (refuses log d command) } ∷ [])
      ∙ ground (arith, append-nil (accepted_on c log))

  destroy_other :
      (t : Transaction) (log : Log)
      → t.connection ≡ some d
      → d ≢ c
      → accepted_on c (destroy refuses t log) ≡ accepted_on c log
  unfolding destroy rollback_it send sent is_begin
  destroy_other t log own n = ground (arith, execute_direct_other rolls_back log n)

destroy_unconnected :
    (refuses : Log → ℕ → Command → Bool) (t : Transaction) (log : Log)
    → t.connection ≡ none
    → destroy refuses t log ≡ log
unfolding destroy
destroy_unconnected refuses t log e = ground arith

destroy-moved_from :
    (refuses : Log → ℕ → Command → Bool) (log : Log) → destroy refuses moved_from log ≡ log
unfolding destroy
destroy-moved_from refuses log = refl

-- Move assignment over an open transaction drops it: whatever transaction of another connection
-- (or of none) is assigned, once both objects are destroyed the connection of the target has
-- carried out the BEGIN and neither a COMMIT nor a ROLLBACK.
pub move_assign_abandons :
    (refuses : Log → ℕ → Command → Bool) (c : ℕ) (base : List Command) (t u : Transaction)
    (log : Log)
    → Tracks c base t log
    → t.state ≡ begin
    → u.connection ≢ some c
    → let (target, source) = move_assign t u in
      accepted_on c (destroy refuses source (destroy refuses target log)) ≡ base ++ begins ∷ []
unfolding move_assign
move_assign_abandons refuses c base t u log v state n =
    rw (destroy-moved_from refuses (destroy refuses u log)) (untouched ∙ v.done ∙ rw state)
  where
    untouched : accepted_on c (destroy refuses u log) ≡ accepted_on c log
    untouched = elim (Option-cases u.connection) [
      | inl e ↦ ap (accepted_on c) (destroy_unconnected refuses u log e)
      | inr (d, e) ↦ destroy_other refuses c d u log e (λ same. n (e ∙ ap some same))
    ]
