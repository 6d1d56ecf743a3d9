-- ===== src/Locks/Spinlock.antt =====
-- synchronization_primitives/mutex/spinlock.cpp: threads that increment `x` under a Spinlock, one
-- shared access a step.
pub mod Exclusion
use hse_multithreading_examp.Prelude.{
  ℕ, zero, suc, ◌+◌, ◌<◌, ◌≡◌, Bool, true, false, ltb, if◌then◌else◌,
}
use hse_multithreading_examp.Threads.{System}

-- `m_locked` of the lock, and the counter that it guards. `++x` is a read and a write.
pub record Shared : Type 0 where
  pub locked : Bool
  pub x : ℕ

-- Where a thread of `increment` stands; `rounds` are the rounds of its loop that are left, the one
-- at hand included.
pub data Pc : Type 0 where
  waiting : (rounds : ℕ) → Pc
  inside : (rounds : ℕ) → Pc
  loaded : (rounds : ℕ) (value : ℕ) → Pc
  leaving : (rounds : ℕ) → Pc

pub data Move (m : Shared) : Pc → Shared → Pc → Type 0 where
  -- `m_locked.exchange(true)` gave true: once more.
  spin :
      {n : ℕ}
      → m.locked ≡ true
      → Move m (waiting (suc n)) (record m { locked = true }) (waiting (suc n))
  -- It gave false: `lock` returns.
  enter :
      {n : ℕ}
      → m.locked ≡ false
      → Move m (waiting (suc n)) (record m { locked = true }) (inside (suc n))
  load : {n : ℕ} → Move m (inside n) m (loaded n m.x)
  store : {n v : ℕ} → Move m (loaded n v) (record m { x = v + 1 }) (leaving n)
  -- `unlock`, and on to the next round.
  unlock : {n : ℕ} → Move m (leaving (suc n)) (record m { locked = false }) (waiting n)

-- `count` threads with `rounds` rounds each, on a free lock and a counter of 0. The source starts
-- two threads with 1000 rounds.
abbrev pub start : ℕ → ℕ → System Shared Pc
start count rounds = record {
  mem = record { locked = false; x = 0 };
  pc = λ i. if ltb i count then waiting rounds else waiting 0;
}
