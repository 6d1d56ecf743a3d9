-- ===== src/Conditions/CvLock.antt =====
-- synchronization_primitives/condition_variable/condvar_intro.cpp: threads that increment `x` under
-- a CVLock, one mutex operation, wait, notification or access a step.
use hse_multithreading_examp.Prelude.{ℕ, suc, ◌+◌, ◌≡◌, refl, Bool, true, false, ltb, if◌then◌else◌}
use hse_multithreading_examp.Threads.{System, Reach, here, later, pick}

-- `m_mtx` and `m_locked`, the threads that sleep on `m_mutexUnlocked`, those that were notified and
-- have not woken up yet, and the counter.
pub record Shared : Type 0 where
  pub mutex : Bool
  pub locked : Bool
  pub sleepers : ℕ
  pub notified : ℕ
  pub x : ℕ

-- Where a thread of `increment` stands; `rounds` are the rounds of its loop that are left, the one
-- at hand included. `++x` is a read and a write.
pub data Pc : Type 0 where
  lock_call : (rounds : ℕ) → Pc
  lock_test : (rounds : ℕ) → Pc
  asleep : (rounds : ℕ) → Pc
  awake : (rounds : ℕ) → Pc
  lock_set : (rounds : ℕ) → Pc
  lock_return : (rounds : ℕ) → Pc
  inside : (rounds : ℕ) → Pc
  loaded : (rounds : ℕ) (value : ℕ) → Pc
  unlock_call : (rounds : ℕ) → Pc
  unlock_clear : (rounds : ℕ) → Pc
  unlock_notify : (rounds : ℕ) → Pc
  unlock_return : (rounds : ℕ) → Pc

pub data Move (m : Shared) : Pc → Shared → Pc → Type 0 where
  take_mutex :
      {n : ℕ}
      → m.mutex ≡ false
      → Move m (lock_call (suc n)) (record m { mutex = true }) (lock_test (suc n))
  was_free : {n : ℕ} → m.locked ≡ false → Move m (lock_test n) m (lock_set n)
  -- `wait` gives the mutex back and falls asleep in one step.
  was_locked :
      {n : ℕ}
      → m.locked ≡ true
      → Move m (lock_test n) (record m { mutex = false; sleepers = m.sleepers + 1 }) (asleep n)
  wake : {n k : ℕ} → m.notified ≡ suc k → Move m (asleep n) (record m { notified = k }) (awake n)
  -- `wait` returns with the mutex, and `lock` goes on without a second test.
  retake_mutex :
      {n : ℕ} → m.mutex ≡ false → Move m (awake n) (record m { mutex = true }) (lock_set n)
  set_locked : {n : ℕ} → Move m (lock_set n) (record m { locked = true }) (lock_return n)
  lock_done : {n : ℕ} → Move m (lock_return n) (record m { mutex = false }) (inside n)
  load : {n : ℕ} → Move m (inside n) m (loaded n m.x)
  store : {n v : ℕ} → Move m (loaded n v) (record m { x = v + 1 }) (unlock_call n)
  take_mutex_again :
      {n : ℕ}
      → m.mutex ≡ false
      → Move m (unlock_call n) (record m { mutex = true }) (unlock_clear n)
  clear_locked : {n : ℕ} → Move m (unlock_clear n) (record m { locked = false }) (unlock_notify n)
  notify_one :
      {n k : ℕ}
      → m.sleepers ≡ suc k
      → Move m
          (unlock_notify n)
          (record m { sleepers = k; notified = m.notified + 1 })
          (unlock_return n)
  notify_none : {n : ℕ} → m.sleepers ≡ 0 → Move m (unlock_notify n) m (unlock_return n)
  unlock_done : {n : ℕ} → Move m (unlock_return (suc n)) (record m { mutex = false }) (lock_call n)

-- Two threads with `rounds` rounds each on a free lock and a counter of 0; the source has 1000.
abbrev pub start : ℕ → System Shared Pc
start rounds = record {
  mem = record { mutex = false; locked = false; sleepers = 0; notified = 0; x = 0 };
  pc = λ i. if ltb i 2 then lock_call rounds else lock_call 0;
}

-- With two rounds or more, and with no spurious wake-up, both threads can be inside the lock together
-- and have loaded the same `x`, so that an increment is lost: a thread that was woken does not see
-- that the other has locked again.
pub both_inside :
    (n : ℕ)
    → (t : System Shared Pc) × Reach Move (start (suc (suc n))) t
      × (t.pc 0 ≡ loaded (suc n) 1)
      × (t.pc 1 ≡ loaded (suc (suc n)) 1)
both_inside n = (
  _,
  (later
      (later
        (later
          (later
            (later
              (later
                (later
                  (later
                    (later
                      (later
                        (later
                          (later
                            (later
                              (later
                                (later
                                  (later
                                    (later
                                      (later
                                        (later
                                          (later
                                            (later (later here (pick 0 (take_mutex refl)))
                                              (pick 0 (was_free refl)))
                                            (pick 0 set_locked))
                                          (pick 0 lock_done))
                                        (pick 1 (take_mutex refl)))
                                      (pick 1 (was_locked refl)))
                                    (pick 0 load))
                                  (pick 0 store))
                                (pick 0 (take_mutex_again refl)))
                              (pick 0 clear_locked))
                            (pick 0 (notify_one refl)))
                          (pick 0 unlock_done))
                        (pick 1 (wake refl)))
                      (pick 0 (take_mutex refl)))
                    (pick 0 (was_free refl)))
                  (pick 0 set_locked))
                (pick 0 lock_done))
              (pick 1 (retake_mutex refl)))
            (pick 1 set_locked))
          (pick 1 lock_done))
        (pick 0 load))
      (pick 1 load)),
  refl,
  refl,
)
