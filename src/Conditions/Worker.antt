-- ===== src/Conditions/Worker.antt =====
-- synchronization_primitives/condition_variable/condition_variable_any.cpp: a Worker that executes
-- tasks in a thread of its own, and `main`, which adds some and destroys it.
use hse_multithreading_examp.Prelude.{
  ℕ, ◌≡◌, refl, ap, ◌∙◌, Bool, true, false, List, [], ◌∷◌, ◌++◌, append-nil, append_assoc,
}

-- `main`: at AddTask with the tasks still to add, at its notify_one, at the destructor of the jthread,
-- which requests a stop and then joins.
pub data Main : Type 0 where
  add_task : (tasks : List ℕ) → Main
  notify : (tasks : List ℕ) → Main
  join : Main
  main_exited : Main

-- The worker's thread: at the test of the stop token, at `wait`, in its loop over a batch.
pub data Thread : Type 0 where
  test_stop : Thread
  wait : Thread
  run : (batch : List ℕ) → Thread
  ended : Thread

-- `m_tasks`, whether a stop was requested, both threads, and the tasks that were executed.
pub data State : Type 0 where
  state : (tasks : List ℕ) (stop : Bool) (main : Main) (thread : Thread) (executed : List ℕ) → State

-- `wait` without the stop token returns when it finds `m_tasks` not empty, whatever wakes it, and
-- `m_tasks` is only touched with the mutex, so that each access is one step.
pub data Step : State → State → Type 0 where
  push_back :
      {q : List ℕ} {b : Bool} {task : ℕ} {rest : List ℕ} {t : Thread} {done : List ℕ}
      → Step
          (state q b (add_task (task ∷ rest)) t done)
          (state (q ++ (task ∷ [])) b (notify rest) t done)
  notify_one :
      {q : List ℕ} {b : Bool} {rest : List ℕ} {t : Thread} {done : List ℕ}
      → Step (state q b (notify rest) t done) (state q b (add_task rest) t done)
  request_stop :
      {q : List ℕ} {b : Bool} {t : Thread} {done : List ℕ}
      → Step (state q b (add_task []) t done) (state q true join t done)
  joined :
      {q : List ℕ} {b : Bool} {done : List ℕ}
      → Step (state q b join ended done) (state q b main_exited ended done)
  go_on :
      {q : List ℕ} {b : Bool} {m : Main} {done : List ℕ}
      → b ≡ false
      → Step (state q b m test_stop done) (state q b m wait done)
  leave :
      {q : List ℕ} {b : Bool} {m : Main} {done : List ℕ}
      → b ≡ true
      → Step (state q b m test_stop done) (state q b m ended done)
  swap_tasks :
      {task : ℕ} {q : List ℕ} {b : Bool} {m : Main} {done : List ℕ}
      → Step (state (task ∷ q) b m wait done) (state [] b m (run (task ∷ q)) done)
  execute :
      {q : List ℕ} {b : Bool} {m : Main} {task : ℕ} {batch : List ℕ} {done : List ℕ}
      → Step (state q b m (run (task ∷ batch)) done) (state q b m (run batch) (done ++ (task ∷ [])))
  batch_done :
      {q : List ℕ} {b : Bool} {m : Main} {done : List ℕ}
      → Step (state q b m (run []) done) (state q b m test_stop done)

abbrev pub start : List ℕ → State
start tasks = state [] false (add_task tasks) test_stop []

pub data Reach (s : State) : State → Type 0 where
  here : Reach s s
  later : {t u : State} → Reach s t → Step t u → Reach s u

abbrev to_add : Main → List ℕ
to_add (add_task rest) = rest
to_add (notify rest) = rest
to_add join = []
to_add main_exited = []

abbrev batch_of : Thread → List ℕ
batch_of (run batch) = batch
batch_of _ = []

-- The tasks in the order of their stages.
abbrev pub all_tasks : State → List ℕ
all_tasks (state q b m t done) = done ++ (batch_of t ++ (q ++ to_add m))

keep : {s t : State} → Step s t → all_tasks t ≡ all_tasks s
keep (push_back {q = q} {task = task} {rest = rest} {t = t} {done = done}) =
    ap (λ l. done ++ (batch_of t ++ l)) (append_assoc q (task ∷ []) rest)
keep notify_one = refl
keep request_stop = refl
keep joined = refl
keep (go_on e) = refl
keep (leave e) = refl
keep (swap_tasks {task = task} {q = q} {m = m} {done = done}) = refl
keep (execute {q = q} {m = m} {task = task} {batch = batch} {done = done}) =
    append_assoc done (task ∷ []) (batch ++ (q ++ to_add m))
keep batch_done = refl

-- In every reachable state the tasks executed, those of the batch at hand, those that wait and those
-- still to be added are the tasks of `main`, in its order: none is lost, doubled or overtaken.
pub tasks_in_order : (tasks : List ℕ) {s : State} → Reach (start tasks) s → all_tasks s ≡ tasks
tasks_in_order tasks here = refl
tasks_in_order tasks (later r st) = keep st ∙ tasks_in_order tasks r

waiting_stuck : (done : List ℕ) (u : State) → ¬ Step (state [] true join wait done) u
waiting_stuck done u st = elim st [ ]

add_and_run :
    {s : State} (tasks done : List ℕ)
    → Reach s (state [] false (add_task tasks) wait done)
    → Reach s (state [] false (add_task []) wait (done ++ tasks))
add_and_run [] done r = rw (append-nil done) r
add_and_run (task ∷ tasks) done r = rw⁻¹ (append_assoc done (task ∷ []) tasks) (
    add_and_run tasks (done ++ (task ∷ [])) (
      later
        (later (later (later (later (later r push_back) notify_one) swap_tasks) execute) batch_done)
        (go_on refl)))

-- Whatever the tasks, there is a run in which the worker has executed all of them and then waits, the
-- destructor requests a stop and joins, and no thread can take a step any more.
pub worker_never_stops :
    (tasks : List ℕ)
    → Reach (start tasks) (state [] true join wait tasks)
      × ((u : State) → ¬ Step (state [] true join wait tasks) u)
worker_never_stops tasks =
    (later (add_and_run tasks [] (later here (go_on refl))) request_stop, waiting_stuck tasks)
