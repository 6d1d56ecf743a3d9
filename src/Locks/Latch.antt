-- ===== src/Locks/Latch.antt =====
-- futex/latch.cpp: Latch on one atomic counter and a futex, one shared access or system call a
-- step.
pub mod Wait
mod Tests
use hse_multithreading_examp.Prelude.{ℕ, ◌+◌, ◌-◌, ◌^◌, ◌<◌, ◌≡◌, ◌≢◌, ltb, ◌==◌, if◌then◌else◌}
use hse_multithreading_examp.Threads.{System}

-- `m_count`, and how often FutexWake was called: it is called with the largest count, so that each
-- call wakes every thread that sleeps on `m_count` then.
pub record Latch : Type 0 where
  pub count : ℕ
  pub wakes : ℕ

-- Where a thread stands in CountDown and Wait.
pub data Pc : Type 0 where
  arriving : Pc
  waking : Pc
  loading : Pc
  testing : (current : ℕ) → Pc
  -- In FutexWait since `since` calls of FutexWake.
  asleep : (since : ℕ) → Pc
  through : Pc

-- `fetch_sub(1)` on a 32-bit counter.
unfoldable pub less_one : ℕ → ℕ
less_one n = if n == 0 then 2 ^ 32 - 1 else n - 1

pub data Move (m : Latch) : Pc → Latch → Pc → Type 0 where
  -- `oldValue` is 1: the latch opens, and FutexWake is next.
  arrive_last : m.count ≡ 1 → Move m arriving (record m { count = less_one m.count }) waking
  arrive : m.count ≢ 1 → Move m arriving (record m { count = less_one m.count }) loading
  wake : Move m waking (record m { wakes = m.wakes + 1 }) loading
  load : Move m loading m (testing m.count)
  opened : {current : ℕ} → current ≡ 0 → Move m (testing current) m through
  -- futex(2): FUTEX_WAIT compares and falls asleep in one step, and returns at once when the
  -- counter has changed.
  sleep :
      {current : ℕ} → current ≢ 0 → m.count ≡ current → Move m (testing current) m (asleep m.wakes)
  changed : {current : ℕ} → current ≢ 0 → m.count ≢ current → Move m (testing current) m loading
  woken : {since : ℕ} → since < m.wakes → Move m (asleep since) m loading
  -- A signal or a spurious wake-up.
  interrupted : {since : ℕ} → Move m (asleep since) m loading

-- `workers` threads that are about to call ArriveAndWait, and all others in Wait. The source has 3
-- workers and one other, its main thread.
abbrev pub start : ℕ → System Latch Pc
start workers = record {
  mem = record { count = workers; wakes = 0 };
  pc = λ i. if ltb i workers then arriving else loading;
}
