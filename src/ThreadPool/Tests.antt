-- ===== src/ThreadPool/Tests.antt =====
-- The theorem on the ThreadPool at a run with one worker and one task.
use hse_multithreading_examp.Prelude.{
  ℕ, ◌<◌, ◌≤◌, ◌≡◌, refl, arith, false, none, some, [], ◌+◌, update,
}
use hse_multithreading_examp.Threads.{System, Reach, here, later, pick}
use hse_multithreading_examp.ThreadPool.{
  Pool, Pc, submit, get, test, lock, look, pop, unlock, call, Move, append, begin_append,
  end_append, all_submitted, get_future, go_on, take_lock, front, pop_front, unlock_some, call_task,
  start,
}
use hse_multithreading_examp.ThreadPool.Once.{tasks_run_once}

-- A task returns its own number plus 40.
abbrev does : ℕ → ℕ
does k = k + 40

abbrev called : System (Pool ℕ) Pc
called = record {
  mem = record {
    locked = false;
    tasks = [];
    appending = false;
    raced = false;
    submitted = 1;
    runs = update (λ _. 0) 0 1;
    future = update (λ _. none) 0 (some 40);
    stopping = 0;
    ended = λ _. false;
  };
  pc =
      update
        (update
          (update
            (update
              (update
                (update
                  (update
                    (update (update (update (start {R = ℕ} 1 1).pc 0 (append 0)) 0 (submit 0)) 0
                      (get 0))
                    1 (lock 0))
                  1 (look 0))
                1 (pop 0 0))
              1 (unlock 0 (some 0)))
            1 (call 0 0))
          1 (test 0))
        0 (get 1);
}

called_reached : Reach (Move does 1) (start 1 1) called
called_reached =
    later
      (later
        (later
          (later
            (later
              (later
                (later
                  (later (later (later here (pick 0 begin_append)) (pick 0 end_append))
                    (pick 0 all_submitted))
                  (pick 1 (go_on (omega arith))))
                (pick 1 (take_lock refl)))
              (pick 1 (front refl)))
            (pick 1 (pop_front refl)))
          (pick 1 unlock_some))
        (pick 1 call_task))
      (pick 0 (get_future (omega arith) (λ e. cc)))

tasks_run_once_example :
    (called.mem.runs 0 ≤ 1)
    × (0 < called.mem.runs 0 → 0 < called.mem.submitted)
    × (0 < 1 → (called.mem.runs 0 ≡ 1) × (called.mem.future 0 ≡ some 40))
tasks_run_once_example = tasks_run_once does 1 1 called_reached refl 0
