-- ===== src/Locks/Mutex.antt =====
-- synchronization_primitives/mutex/mutex.cpp: threads that increment `x` under a std::mutex, one
-- mutex operation or access a step.
use hse_multithreading_examp.Prelude.{ℕ, suc, ◌+◌, ◌*◌, ◌<◌, ◌≡◌, true, false}
use hse_multithreading_examp.Threads.{System, Reach, here, later, pick}
use hse_multithreading_examp.Locks.Spinlock
use hse_multithreading_examp.Locks.Spinlock.{Shared, Pc, waiting, inside, loaded, leaving, start}
use hse_multithreading_examp.Locks.Spinlock.Exclusion.{no_lost_increment}

-- `locked` stands for the mutex, and a thread that waits for it takes no step.
pub data Move (m : Shared) : Pc → Shared → Pc → Type 0 where
  lock :
      {n : ℕ}
      → m.locked ≡ false
      → Move m (waiting (suc n)) (record m { locked = true }) (inside (suc n))
  load : {n : ℕ} → Move m (inside n) m (loaded n m.x)
  store : {n v : ℕ} → Move m (loaded n v) (record m { x = v + 1 }) (leaving n)
  unlock : {n : ℕ} → Move m (leaving (suc n)) (record m { locked = false }) (waiting n)

-- A step of these threads is one that threads with a Spinlock may take too.
spinlock_move : {m m' : Shared} {p p' : Pc} → Move m p m' p' → Spinlock.Move m p m' p'
spinlock_move (lock e) = Spinlock.enter e
spinlock_move load = Spinlock.load
spinlock_move store = Spinlock.store
spinlock_move unlock = Spinlock.unlock

spinlock_run : {s t : System Shared Pc} → Reach Move s t → Reach Spinlock.Move s t
spinlock_run here = here
spinlock_run (later r (pick i mv)) = later (spinlock_run r) (pick i (spinlock_move mv))

-- No increment is lost under the mutex: when all threads have finished, `x` is the number of threads
-- times the number of rounds.
pub mutex_sum :
    (count rounds : ℕ) {t : System Shared Pc}
    → Reach Move (start count rounds) t
    → ((i : ℕ) → i < count → t.pc i ≡ waiting 0)
    → t.mem.x ≡ count * rounds
mutex_sum count rounds r = no_lost_increment count rounds (spinlock_run r)
