-- ===== src/Barrier/Tests.antt =====
-- The barrier at two workers, of which one has to wake up.
use hse_multithreading_examp.Barrier.{
  suc, Barrier, Pc, working, waiting, Move, arrive, arrive_last, start,
}
use hse_multithreading_examp.Prelude.{update, ℕ, ◌<◌, ◌≡◌, ◌⊎◌, refl, arith}
use hse_multithreading_examp.Threads.{System, Step, Reach, here, later, pick}
use hse_multithreading_examp.Barrier.Lockstep.{in_lockstep, workers_go_on}

abbrev one_ahead : System Barrier Pc
one_ahead = record {
  mem = record { arrived = 0; phase = 1 };
  pc = update (update (start 2 2).pc 1 (waiting 0)) 0 (working 1);
}

one_ahead_reached : Reach (Move 2 2) (start 2 2) one_ahead
one_ahead_reached =
    later (later here (pick 1 (arrive (omega arith) (omega arith))))
      (pick 0 (arrive_last (omega arith) refl))

in_lockstep_example :
    (one_ahead.mem.phase ≡ 1)
    × ((r : ℕ) → one_ahead.pc 1 ≡ working r → r ≡ 1)
    × ((r : ℕ) → one_ahead.pc 1 ≡ waiting r → (r ≡ 1) ⊎ (suc r ≡ 1))
in_lockstep_example = in_lockstep 2 2 0 1 1 (omega arith) (omega arith) one_ahead_reached refl

workers_go_on_example :
    (((i : ℕ) → i < 2 → one_ahead.pc i ≡ working 2) × (one_ahead.mem.phase ≡ 2))
    ⊎ ((u : System Barrier Pc) × Step (Move 2 2) one_ahead u)
workers_go_on_example = workers_go_on 2 2 (omega arith) one_ahead_reached
