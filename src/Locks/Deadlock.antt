-- ===== src/Locks/Deadlock.antt =====
-- synchronization_primitives/mutex/deadlock.cpp: threads that take two mutexes, in one order or in
-- the other, one mutex operation a step.
pub mod Freedom
pub mod Stuck
mod Tests
use hse_multithreading_examp.Prelude.{ℕ, ◌<◌, ◌≡◌, Bool, true, false, not, ltb, ◌==◌, if◌then◌else◌}
use hse_multithreading_examp.Threads.{System}

-- Whether `m1` and `m2` are locked.
pub record Mutexes : Type 0 where
  pub m1 : Bool
  pub m2 : Bool

abbrev pub is_locked : Mutexes → Bool → Bool
is_locked m false = m.m1
is_locked m true = m.m2

abbrev pub set_locked : Mutexes → Bool → Bool → Mutexes
set_locked m false b = record m { m1 = b }
set_locked m true b = record m { m2 = b }

-- Before the first guard, before the second, behind both, after the second's end, after both.
pub data Stage : Type 0 where
  first : Stage
  second : Stage
  both : Stage
  half : Stage
  done : Stage

-- A thread whose first guard is on `m1` is not swapped; one whose first guard is on `m2` is.
pub data Pc : Type 0 where
  at : (swapped : Bool) (stage : Stage) → Pc

-- A mutex is locked in one step when it is free; guards end in the opposite order.
pub data Move (m : Mutexes) : Pc → Mutexes → Pc → Type 0 where
  lock_first :
      {s : Bool} → is_locked m s ≡ false → Move m (at s first) (set_locked m s true) (at s second)
  lock_second :
      {s : Bool}
      → is_locked m (not s) ≡ false
      → Move m (at s second) (set_locked m (not s) true) (at s both)
  unlock_second : {s : Bool} → Move m (at s both) (set_locked m (not s) false) (at s half)
  unlock_first : {s : Bool} → Move m (at s half) (set_locked m s false) (at s done)

-- NoDeadlock with `count` threads; the source has two.
abbrev pub no_deadlock : ℕ → System Mutexes Pc
no_deadlock count = record {
  mem = record { m1 = false; m2 = false };
  pc = λ i. at false (if ltb i count then first else done);
}

-- Deadlock: two threads with opposite orders.
abbrev pub deadlock : System Mutexes Pc
deadlock = record {
  mem = record { m1 = false; m2 = false };
  pc = λ i. if i == 0 then at false first else if i == 1 then at true first else at false done;
}
