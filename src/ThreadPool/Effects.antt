-- ===== src/ThreadPool/Effects.antt =====
-- What each step of the ThreadPool does to its mutex, its tasks and their futures.
use hse_multithreading_examp.Prelude.{
  ℕ, zero, suc, ◌+◌, ◌<◌, ◌≤◌, ◌≡◌, ◌≢◌, ◌⊎◌, inl, inr, refl, sym, ap, ◌∙◌, Bool, true, false,
  Option, none, some, List, [], ◌∷◌, ◌++◌, update, ltb, ◌==◌, arith, Bool-cases,
}
use mathlib.Core.Path.{subst}
use hse_multithreading_examp.ThreadPool.{
  Pool, Pc, used, submit, append, get, destroy, join, destroyed, test, lock, look, pop, unlock,
  call, gone, Move, begin_append, end_append, undefined, all_submitted, get_future, all_got,
  request_stop, join_worker, all_joined, stop_requested, go_on, take_lock, nothing, front,
  pop_front, unlock_none, unlock_some, call_task,
}

abbrev pub flag : Bool → ℕ
flag true = 1
flag false = 0

-- A thread that has the mutex.
abbrev pub holds : Pc → ℕ
holds (look w) = 1
holds (pop w k) = 1
holds (unlock w r) = 1
holds _ = 0

-- How often task `k` is in a list, and whether a worker has taken it out.
abbrev pub in_list : ℕ → List ℕ → ℕ
in_list k [] = 0
in_list k (x ∷ l) = flag (x == k) + in_list k l

abbrev pub in_hand : ℕ → Pc → ℕ
in_hand k (unlock w (some x)) = flag (x == k)
in_hand k (call w x) = flag (x == k)
in_hand k _ = 0

-- The futures that the owner has got.
abbrev pub got : Pc → ℕ
got (get k) = k
got (destroy k w) = k
got (join k w) = k
got (destroyed k) = k
got _ = 0

in_list-append : (k x : ℕ) (l : List ℕ) → in_list k (l ++ (x ∷ [])) ≡ in_list k l + flag (x == k)
in_list-append k x [] = omega arith
in_list-append k x (y ∷ l) = omega (arith, in_list-append k x l)

flag-suc : (k n : ℕ) → flag (ltb k (suc n)) ≡ flag (ltb k n) + flag (n == k)
flag-suc k n = elim (Bool-cases (n == k)) [ inl same ↦ ground arith | inr other ↦ ground arith ]

module _ {R : Type 0} where
  -- A worker that has moved the front out of the list has not popped it yet.
  abbrev pub Front : Pool R → Pc → Type 0
  Front m (pop w k) = (rest : List ℕ) × (m.tasks ≡ k ∷ rest)
  Front m _ = Unit

  abbrev pub result : R → ℕ → Option R
  result r zero = none
  result r (suc n) = some r

module _ {R : Type 0} (does : ℕ → R) (workers : ℕ) (k : ℕ) where
  pub record Effect (m m' : Pool R) (p p' : Pc) : Type 0 where
    pub lock_share : flag m'.locked + holds p ≡ flag m.locked + holds p'
    pub task_share :
        in_list k m'.tasks + in_hand k p' + m'.runs k + flag (ltb k m.submitted)
        ≡ in_list k m.tasks + in_hand k p + m.runs k + flag (ltb k m'.submitted)
    pub own_front : Front m' p'
    pub future_after : m'.future k ≡ result (does k) (m'.runs k)
    pub got_after : (k < got p' → (k < got p) ⊎ (0 < m'.runs k)) × (m.runs k ≤ m'.runs k)
    pub started : p ≢ gone

  -- A step that leaves the tasks and the futures alone.
  quiet :
      (m m' : Pool R) (p p' : Pc)
      → m'.tasks ≡ m.tasks
      → m'.submitted ≡ m.submitted
      → m'.runs ≡ m.runs
      → m'.future ≡ m.future
      → flag m'.locked + holds p ≡ flag m.locked + holds p'
      → in_hand k p' ≡ in_hand k p
      → Front m' p'
      → m.future k ≡ result (does k) (m.runs k)
      → (k < got p' → (k < got p) ⊎ (0 < m.runs k))
      → p ≢ gone
      → Effect m m' p p'
  quiet m m' p p' te se re fe l h f res g st = record {
    lock_share = l;
    task_share = rw (te, se, re, h);
    own_front = f;
    future_after = rw (fe, re) res;
    got_after = rw re (g, omega arith);
    started = st;
  }

  ran : (r : R) (n : ℕ) (f : Option R) → f ≡ result r n → f ≢ none → 0 < n
  ran r zero f e ne = absurd (ne e)
  ran r (suc n) f e ne = omega arith

  call-Effect :
      (m : Pool R) (w x : ℕ)
      → m.future k ≡ result (does k) (m.runs k)
      → Effect m
          (record m {
            runs = update m.runs x (suc (m.runs x));
            future = update m.future x (some (does x));
          })
          (call w x)
          (test w)
  call-Effect m w x res = elim (Bool-cases (x == k)) [
    | inl same ↦
        let e : x ≡ k = (ground arith) in
        record {
          lock_share = refl;
          task_share = rw same (omega (arith, ap m.runs e));
          own_front = tt;
          future_after = rw same (ap (λ y. some (does y)) e);
          got_after = rw same ((λ h. absurd (omega arith)), omega (arith, ap m.runs e));
          started = λ g. cc;
        }
    | inr other ↦ record {
      lock_share = refl;
      task_share = rw other (omega arith);
      own_front = tt;
      future_after = rw other res;
      got_after = rw other ((λ h. absurd (omega arith)), omega arith);
      started = λ g. cc;
    }
  ]

  pub effect :
      {m m' : Pool R} {p p' : Pc}
      → Move does workers m p m' p'
      → m.raced ≡ false
      → holds p ≤ flag m.locked
      → flag m.locked ≤ 1
      → Front m p
      → m.future k ≡ result (does k) (m.runs k)
      → Effect m m' p p'
  effect {m} (begin_append {n = n}) clean h l f res =
      quiet m (record m { appending = true }) (submit (suc n)) (append n) refl refl refl refl refl
        refl tt res (λ g. absurd (omega arith)) (λ g. cc)
  effect (undefined r r') clean h l f res = absurd (let z : true ≡ false = sym r ∙ clean in cc)
  effect {m} (end_append {n = n}) clean h l f res = record {
    lock_share = refl;
    task_share = omega (arith, in_list-append k m.submitted m.tasks, flag-suc k m.submitted);
    own_front = tt;
    future_after = res;
    got_after = ((λ g. absurd (omega arith)), omega arith);
    started = λ g. cc;
  }
  effect {m} all_submitted clean h l f res =
      quiet m m (submit 0) (get 0) refl refl refl refl refl refl tt res (λ g. absurd (omega arith))
        (λ g. cc)
  effect {m} (get_future {k = j} lt some_result) clean h l f res =
      quiet m m (get j) (get (suc j)) refl refl refl refl refl refl tt res
        (λ g. elim (Bool-cases (j == k)) [
          | inl same ↦
              let e : j ≡ k = (ground arith) in
              inr (
                ran (does k) (m.runs k) (m.future k) res
                  (subst (λ x. m.future x ≢ none) e some_result))
          | inr other ↦ let ne : j ≢ k = (ground arith) in inl (omega arith)
        ])
        (λ g. cc)
  effect {m} (all_got {k = j} ge) clean h l f res =
      quiet m m (get j) (destroy j 0) refl refl refl refl refl refl tt res (λ g. inl g) (λ g. cc)
  effect {m} (request_stop {k = j} {w = w} lt) clean h l f res =
      quiet m (record m { stopping = suc w }) (destroy j w) (join j w) refl refl refl refl refl refl
        tt res (λ g. inl g) (λ g. cc)
  effect {m} (join_worker {k = j} {w = w} e) clean h l f res =
      quiet m m (join j w) (destroy j (suc w)) refl refl refl refl refl refl tt res (λ g. inl g)
        (λ g. cc)
  effect {m} (all_joined {k = j} {w = w} ge) clean h l f res =
      quiet m m (destroy j w) (destroyed j) refl refl refl refl refl refl tt res (λ g. inl g)
        (λ g. cc)
  effect {m} (stop_requested {w = w} lt) clean h l f res =
      quiet m (record m { ended = update m.ended w true }) (test w) gone refl refl refl refl refl
        refl tt res (λ g. absurd (omega arith)) (λ g. cc)
  effect {m} (go_on {w = w} le) clean h l f res =
      quiet m m (test w) (lock w) refl refl refl refl refl refl tt res (λ g. absurd (omega arith))
        (λ g. cc)
  effect {m} (take_lock {w = w} free) clean h l f res =
      quiet m (record m { locked = true }) (lock w) (look w) refl refl refl refl (ground arith) refl
        tt res (λ g. absurd (omega arith)) (λ g. cc)
  effect {m} (nothing {w = w} e) clean h l f res =
      quiet m (used m) (look w) (unlock w none) refl refl refl refl refl refl tt res
        (λ g. absurd (omega arith)) (λ g. cc)
  effect {m} (front {w = w} {k = x} {rest = rest} e) clean h l f res =
      quiet m (used m) (look w) (pop w x) refl refl refl refl refl refl (rest, e) res
        (λ g. absurd (omega arith)) (λ g. cc)
  effect {m} (pop_front {w = w} {k = x} {first = y} {rest = rest} e) clean h l (rest0, e0) res =
      record {
        lock_share = refl;
        task_share = omega (arith, ap (in_list k) e, ap (in_list k) e0, same_head (sym e0 ∙ e));
        own_front = tt;
        future_after = res;
        got_after = ((λ g. absurd (omega arith)), omega arith);
        started = λ g. cc;
      }
    where
      same_head : {l0 l1 : List ℕ} → (x ∷ l0) ≡ (y ∷ l1) → in_list k l0 ≡ in_list k l1
      same_head q = cc
  effect {m} (unlock_none {w = w}) clean h l f res =
      quiet m (record m { locked = false }) (unlock w none) (test w) refl refl refl refl
        (omega arith) refl tt res (λ g. absurd (omega arith)) (λ g. cc)
  effect {m} (unlock_some {w = w} {k = x}) clean h l f res =
      quiet m (record m { locked = false }) (unlock w (some x)) (call w x) refl refl refl refl
        (omega arith) refl tt res (λ g. absurd (omega arith)) (λ g. cc)
  effect {m} (call_task {w = w} {k = x}) clean h l f res = call-Effect m w x res

  -- Who changes the front of the tasks has the mutex.
  tasks_after :
      {m m' : Pool R} {p p' : Pc}
      → Move does workers m p m' p'
      → m.raced ≡ false
      → ((more : List ℕ) × (m'.tasks ≡ m.tasks ++ more)) ⊎ ((m'.tasks ≡ m.tasks) ⊎ (holds p ≡ 1))
  tasks_after begin_append clean = inr (inl refl)
  tasks_after (undefined r r') clean = absurd (let z : true ≡ false = sym r ∙ clean in cc)
  tasks_after {m} end_append clean = inl (m.submitted ∷ [], refl)
  tasks_after all_submitted clean = inr (inl refl)
  tasks_after (get_future lt e) clean = inr (inl refl)
  tasks_after (all_got ge) clean = inr (inl refl)
  tasks_after (request_stop lt) clean = inr (inl refl)
  tasks_after (join_worker e) clean = inr (inl refl)
  tasks_after (all_joined ge) clean = inr (inl refl)
  tasks_after (stop_requested lt) clean = inr (inl refl)
  tasks_after (go_on le) clean = inr (inl refl)
  tasks_after (take_lock free) clean = inr (inl refl)
  tasks_after (nothing e) clean = inr (inl refl)
  tasks_after (front e) clean = inr (inl refl)
  tasks_after (pop_front e) clean = inr (inr refl)
  tasks_after unlock_none clean = inr (inl refl)
  tasks_after unlock_some clean = inr (inl refl)
  tasks_after call_task clean = inr (inl refl)

  -- A worker that stands before its pop keeps the front, unless another has the mutex too.
  pub others-Front :
      {m m' : Pool R} {p p' : Pc} (q : Pc)
      → Move does workers m p m' p'
      → m.raced ≡ false
      → (holds p ≡ 1 → holds q ≡ 0)
      → Front m q
      → Front m' q
  others-Front (pop w x) mv clean apart (rest, e) = elim (tasks_after mv clean) [
    | inl (more, t) ↦ (rest ++ more, t ∙ ap (λ l. l ++ more) e)
    | inr (inl t) ↦ (rest, t ∙ e)
    | inr (inr h) ↦ absurd (omega (arith, apart h))
  ]
  others-Front (submit l) mv clean apart f = tt
  others-Front (append l) mv clean apart f = tt
  others-Front (get j) mv clean apart f = tt
  others-Front (destroy j w) mv clean apart f = tt
  others-Front (join j w) mv clean apart f = tt
  others-Front (destroyed j) mv clean apart f = tt
  others-Front (test w) mv clean apart f = tt
  others-Front (lock w) mv clean apart f = tt
  others-Front (look w) mv clean apart f = tt
  others-Front (unlock w r) mv clean apart f = tt
  others-Front (call w x) mv clean apart f = tt
  others-Front gone mv clean apart f = tt

  -- A race is never undone.
  pub raced_before :
      {m m' : Pool R} {p p' : Pc} → Move does workers m p m' p' → m'.raced ≡ false → m.raced ≡ false
  raced_before (undefined r r') e = absurd (let z : true ≡ false = sym r' ∙ e in cc)
  raced_before (nothing x) e = ground arith
  raced_before (front x) e = ground arith
  raced_before (pop_front x) e = ground arith
  raced_before begin_append e = e
  raced_before end_append e = e
  raced_before all_submitted e = e
  raced_before (get_future x y) e = e
  raced_before (all_got x) e = e
  raced_before (request_stop x) e = e
  raced_before (join_worker x) e = e
  raced_before (all_joined x) e = e
  raced_before (stop_requested x) e = e
  raced_before (go_on x) e = e
  raced_before (take_lock x) e = e
  raced_before unlock_none e = e
  raced_before unlock_some e = e
  raced_before call_task e = e
