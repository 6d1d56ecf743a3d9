-- ===== src/ThreadPool.antt =====
-- The ThreadPool of structured_concurrency/packaged_task.cpp: one thread that submits tasks, gets their
-- futures and destroys the pool, and the workers; one mutex operation, access or call a step.
pub mod Effects
pub mod Once
mod Tests
use hse_multithreading_examp.Prelude.{
  ℕ, zero, suc, ◌-◌, ◌<◌, ◌≤◌, ◌≡◌, ◌≢◌, Bool, true, false, Option, none, some, List, [], ◌∷◌, ◌++◌,
  update, ltb, ◌==◌, ◌||◌, if◌then◌else◌,
}
use hse_multithreading_examp.Threads.{System}

-- `m_mtx` and `m_tasks`, the tasks in the order of the calls of Submit, numbered from 0; how often each
-- was called, and its shared state; how many workers were asked to stop, and which have ended. Submit is
-- `appending` while it is in `m_tasks.emplace_back`, which it calls without the mutex; if a worker
-- uses the list then, the program has `raced`.
pub record Pool (R : Type 0) : Type 0 where
  pub locked : Bool
  pub tasks : List ℕ
  pub appending : Bool
  pub raced : Bool
  pub submitted : ℕ
  pub runs : ℕ → ℕ
  pub future : ℕ → Option R
  pub stopping : ℕ
  pub ended : ℕ → Bool

-- Where a thread stands. The owner of the pool has calls of Submit left, or is in one, then gets one future after the
-- other, then destroys the pool, one worker at a time. A worker is in its loop, in GetTask up to
-- `unlock`, or calls a task.
pub data Pc : Type 0 where
  submit : (left : ℕ) → Pc
  append : (left : ℕ) → Pc
  get : (got : ℕ) → Pc
  destroy : (got : ℕ) (worker : ℕ) → Pc
  join : (got : ℕ) (worker : ℕ) → Pc
  destroyed : (got : ℕ) → Pc
  test : (worker : ℕ) → Pc
  lock : (worker : ℕ) → Pc
  look : (worker : ℕ) → Pc
  pop : (worker : ℕ) (task : ℕ) → Pc
  unlock : (worker : ℕ) (task : Option ℕ) → Pc
  call : (worker : ℕ) (task : ℕ) → Pc
  gone : Pc

-- A use of the list by a worker.
abbrev pub used : {R : Type 0} → Pool R → Pool R
used m = record m { raced = m.raced || m.appending }

-- `does` says what the function of a task does: it returns or throws, and the packaged_task stores
-- that. Once the program has raced anything may happen.
module _ {R : Type 0} (does : ℕ → R) (workers : ℕ) where
  pub data Move (m : Pool R) : Pc → Pool R → Pc → Type 0 where
    begin_append : {n : ℕ} → Move m (submit (suc n)) (record m { appending = true }) (append n)
    end_append :
        {n : ℕ}
        → Move m
            (append n)
            (record m {
              tasks = m.tasks ++ (m.submitted ∷ []);
              submitted = suc m.submitted;
              appending = false;
            })
            (submit n)
    undefined : {p p' : Pc} {m' : Pool R} → m.raced ≡ true → m'.raced ≡ true → Move m p m' p'
    all_submitted : Move m (submit 0) m (get 0)
    get_future : {k : ℕ} → k < m.submitted → m.future k ≢ none → Move m (get k) m (get (suc k))
    all_got : {k : ℕ} → m.submitted ≤ k → Move m (get k) m (destroy k 0)
    request_stop :
        {k w : ℕ} → w < workers → Move m (destroy k w) (record m { stopping = suc w }) (join k w)
    join_worker : {k w : ℕ} → m.ended w ≡ true → Move m (join k w) m (destroy k (suc w))
    all_joined : {k w : ℕ} → workers ≤ w → Move m (destroy k w) m (destroyed k)
    stop_requested :
        {w : ℕ} → w < m.stopping → Move m (test w) (record m { ended = update m.ended w true }) gone
    go_on : {w : ℕ} → m.stopping ≤ w → Move m (test w) m (lock w)
    take_lock : {w : ℕ} → m.locked ≡ false → Move m (lock w) (record m { locked = true }) (look w)
    nothing : {w : ℕ} → m.tasks ≡ [] → Move m (look w) (used m) (unlock w none)
    front : {w k : ℕ} {rest : List ℕ} → m.tasks ≡ k ∷ rest → Move m (look w) (used m) (pop w k)
    pop_front :
        {w k first : ℕ} {rest : List ℕ}
        → m.tasks ≡ first ∷ rest
        → Move m (pop w k) (record (used m) { tasks = rest }) (unlock w (some k))
    unlock_none : {w : ℕ} → Move m (unlock w none) (record m { locked = false }) (test w)
    unlock_some : {w k : ℕ} → Move m (unlock w (some k)) (record m { locked = false }) (call w k)
    call_task :
        {w k : ℕ}
        → Move m
            (call w k)
            (record m {
              runs = update m.runs k (suc (m.runs k));
              future = update m.future k (some (does k));
            })
            (test w)

-- A new pool of `workers` workers, and an owner with `count` calls of Submit; the source has 3 and 4.
abbrev pub start : {R : Type 0} → ℕ → ℕ → System (Pool R) Pc
start workers count = record {
  mem = record {
    locked = false;
    tasks = [];
    appending = false;
    raced = false;
    submitted = 0;
    runs = λ _. 0;
    future = λ _. none;
    stopping = 0;
    ended = λ _. false;
  };
  pc = λ i. if i == 0 then submit count else if ltb i (suc workers) then test (i - 1) else gone;
}
