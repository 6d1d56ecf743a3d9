-- ===== src/Locks/Deadlock/Tests.antt =====
-- The theorems on two mutexes at the source's threads.
use hse_multithreading_examp.Prelude.{update, ℕ, ◌<◌, ◌≡◌, ◌⊎◌, refl, true, false}
use hse_multithreading_examp.Threads.{System, Step, Reach, here, later, pick}
use hse_multithreading_examp.Locks.Deadlock.{
  Mutexes, Pc, at, second, done, Move, lock_first, no_deadlock,
}
use hse_multithreading_examp.Locks.Deadlock.Freedom.{never_stuck}

abbrev one_guard : System Mutexes Pc
one_guard = record {
  mem = record { m1 = true; m2 = false };
  pc = update (no_deadlock 2).pc 0 (at false second);
}

one_guard_reached : Reach Move (no_deadlock 2) one_guard
one_guard_reached = later here (pick 0 (lock_first refl))

never_stuck_example :
    ((i : ℕ) → i < 2 → one_guard.pc i ≡ at false done)
    ⊎ ((u : System Mutexes Pc) × Step Move one_guard u)
never_stuck_example = never_stuck 2 one_guard_reached
