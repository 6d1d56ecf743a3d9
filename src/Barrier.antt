-- ===== src/Barrier.antt =====
-- synchronization_primitives/barrier/barrier.cpp: workers that meet at a std::barrier at the end of each
-- of their rounds, one call or one wake-up a step.
pub mod Rounds
pub mod Lockstep
mod Tests
use hse_multithreading_examp.Prelude.{ℕ, suc, ◌+◌, ◌<◌, ◌≡◌, ltb, if◌then◌else◌}
use hse_multithreading_examp.Threads.{System}

-- How many workers have arrived in the phase at hand, and how many phases were completed, which is how
-- often the completion function has printed.
pub record Barrier : Type 0 where
  pub arrived : ℕ
  pub phase : ℕ

-- A worker in its round, or in `arrive_and_wait` at the end of it. Behind the last round it has ended.
pub data Pc : Type 0 where
  working : (round : ℕ) → Pc
  waiting : (round : ℕ) → Pc

-- The worker that arrives last completes the phase and does not wait. The source has two rounds, work
-- and clean-up.
module _ (workers rounds : ℕ) where
  pub data Move (m : Barrier) : Pc → Barrier → Pc → Type 0 where
    arrive :
        {k : ℕ}
        → k < rounds
        → suc m.arrived < workers
        → Move m (working k) (record m { arrived = suc m.arrived }) (waiting k)
    arrive_last :
        {k : ℕ}
        → k < rounds
        → suc m.arrived ≡ workers
        → Move m (working k) (record { arrived = 0; phase = suc m.phase }) (working (suc k))
    wake : {k : ℕ} → k < m.phase → Move m (waiting k) m (working (suc k))

-- The source has three workers.
abbrev pub start : ℕ → ℕ → System Barrier Pc
start workers rounds = record {
  mem = record { arrived = 0; phase = 0 };
  pc = λ i. if ltb i workers then working 0 else working rounds;
}
