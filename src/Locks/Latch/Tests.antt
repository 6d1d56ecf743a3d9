-- ===== src/Locks/Latch/Tests.antt =====
-- The Latch's theorems at concrete runs of one worker and one thread that waits.
use hse_multithreading_examp.Prelude.{update, ℕ, zero, suc, ◌<◌, ◌≢◌, refl, arith}
use hse_multithreading_examp.Threads.{System, Reach, here, later, pick}
use hse_multithreading_examp.Locks.Latch.{
  Latch, Pc, arriving, waking, loading, testing, asleep, through, Move, arrive_last, wake, load,
  sleep, start,
}
use hse_multithreading_examp.Locks.Latch.Wait.{wait_not_early, no_lost_wake}

abbrev passed : System Latch Pc
passed = record {
  mem = record { count = 0; wakes = 0 };
  pc = update (update (update (start 1).pc 0 waking) 1 (testing 0)) 1 through;
}

passed_reached : Reach Move (start 1) passed
unfolding hse_multithreading_examp.Locks.Latch.less_one
passed_reached =
    later (later (later here (pick 0 (arrive_last refl))) (pick 1 load)) (pick 1 (Move.opened refl))

wait_not_early_example : passed.pc 0 ≢ arriving
wait_not_early_example = wait_not_early 1 passed_reached 1 0 refl (omega arith)

abbrev slept : System Latch Pc
slept = record {
  mem = record { count = 0; wakes = 1 };
  pc = update (update (update (update (start 1).pc 1 (testing 1)) 1 (asleep 0)) 0 waking) 0 loading;
}

slept_reached : Reach Move (start 1) slept
unfolding hse_multithreading_examp.Locks.Latch.less_one
slept_reached =
    later
      (later (later (later here (pick 1 load)) (pick 1 (sleep (omega arith) refl)))
        (pick 0 (arrive_last refl)))
      (pick 0 wake)

returned : (j : ℕ) → j < 1 → (slept.pc j ≢ arriving) × (slept.pc j ≢ waking)
returned zero lt = ((λ e. cc), (λ e. cc))
returned (suc j) lt = absurd (omega arith)

no_lost_wake_example : 0 < slept.mem.wakes
no_lost_wake_example = no_lost_wake 1 slept_reached returned 1 0 refl
