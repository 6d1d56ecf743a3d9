-- ===== src/Locks/Livelock.antt =====
-- synchronization_primitives/mutex/livelock.cpp: threads that take two timed mutexes and give up
-- after a while, one mutex operation or one timeout a step.
mod Ending
mod Tests
use hse_multithreading_examp.Prelude.{ℕ, Bool, true, false, ltb, ◌==◌, if◌then◌else◌}
use hse_multithreading_examp.Threads.{System}
use hse_multithreading_examp.Locks.Deadlock.{
  Mutexes, is_locked, set_locked, first, second, both, half, done, Pc, at,
}
use hse_multithreading_examp.Locks.Deadlock

-- A thread stands where a thread of deadlock.cpp does. A guard's wait of 5 seconds may end at any time
-- in which it is not over; a thread that gives up returns, and its guards end.
pub data Move (m : Mutexes) : Pc → Mutexes → Pc → Type 0 where
  step : {p : Pc} {m' : Mutexes} {p' : Pc} → Deadlock.Move m p m' p' → Move m p m' p'
  first_times_out : {s : Bool} → Move m (at s first) m (at s done)
  second_times_out : {s : Bool} → Move m (at s second) m (at s half)

-- `count` threads with free mutexes, each in its own order; the source has two, with opposite orders.
abbrev pub start : ℕ → (ℕ → Bool) → System Mutexes Pc
start count order = record {
  mem = record { m1 = false; m2 = false };
  pc = λ i. at (order i) (if ltb i count then first else done);
}
