-- ===== src/Net/Tcp/Tests.antt =====
-- A session at concrete inputs.
use mif.Prelude.{refl, true, false, [], ◌∷◌}
use mif.Net.Tcp.{
  Session, Reach, starts_write, started, publish, on_read, execute, run_task, begun, publishes,
  reads, writes_byte,
}
use mif.Net.Tcp.Order.{counts, total, IsWithin, Reach-IsWithin}

-- A client publishes in `OnData`, another thread too, and a byte went out.
abbrev busy : Session
busy = record {
  tasks = starts_write (7 ∷ []) ∷ [];
  writes = (6 ∷ []) ∷ [];
  wire = 5 ∷ [];
  delivered = (1 ∷ []) ∷ [];
  is_reading = true;
  is_open = true;
}

Reach-busy : Reach busy ((5 ∷ 6 ∷ []) ∷ (7 ∷ []) ∷ [])
unfolding started publish on_read execute run_task
Reach-busy =
    writes_byte [] 5 (6 ∷ []) []
      (publishes false (7 ∷ []) (publishes true (5 ∷ 6 ∷ []) (reads (1 ∷ []) begun refl))) refl

Reach-IsWithin_example : IsWithin true (total 6 busy) (counts 6 ((5 ∷ 6 ∷ []) ∷ (7 ∷ []) ∷ []))
Reach-IsWithin_example = Reach-IsWithin Reach-busy 6
