-- ===== src/Futures.antt =====
-- structured_concurrency/future.cpp, async.cpp and shared_future.cpp: a worker that sets a promise, and
-- what the thread that gets its future prints; one call or one output a step.
pub mod Printed
mod Tests
use hse_multithreading_examp.Prelude.{
  ℕ, ◌*◌, ◌%◌, ◌^◌, ◌≡◌, ◌≢◌, ◌⊎◌, inl, inr, refl, sym, ap, ◌∙◌, Bool, true, false, Option, none,
  some, List, [], ◌∷◌, ◌++◌, ◌==◌, if◌then◌else◌, arith, ltb, ◌+◌,
}
use mathlib.Core.Path.{subst}

-- An int, and its double, which a 32-bit int may not hold.
pub data ℤ : Type 0 where
  pos negsuc : ℕ → ℤ

abbrev pub double : ℤ → ℤ
double (pos n) = pos (n * 2)
double (negsuc n) = negsuc (n * 2 + 1)

-- -2 ^ 31 ≤ n < 2 ^ 31
abbrev pub is_int : ℤ → Bool
is_int (pos n) = ltb n (2 ^ 31)
is_int (negsuc n) = ltb n (2 ^ 31)

-- What a task comes to: a value, or an exception with its text. The exceptions are that of the worker, and
-- the one that `get` throws on a future without a shared state.
pub data Exception : Type 0 where
  invalid_value no_state : Exception

pub data Result : Type 0 where
  value : ℤ → Result
  exception : Exception → Result

abbrev pub is_228 : ℤ → Bool
is_228 (pos n) = n == 228
is_228 (negsuc n) = false

-- WorkerFunction, which throws or returns in async.cpp, and sets the promise in the others; `none` when
-- `n * 2` overflows, which has no meaning.
unfoldable pub worker_function : ℤ → Option Result
worker_function n =
    if is_228 n
    then some (exception invalid_value)
    else if is_int (double n)
    then some (value (double n))
    else none

-- What RunWorker prints, piece by piece: "Result: " and "Another try: " before the calls of `get`, and
-- behind them a number with the end of the line, or "Exception caught: " with the text of the exception.
pub data Output : Type 0 where
  result_label : Output
  another_label : Output
  number : ℤ → Output
  caught : Exception → Output

-- A std::future: its shared state is not set, or set, or the future has none.
pub data Future : Type 0 where
  pending : Future
  ready : Result → Future
  no_shared_state : Future

pub data Worker : Type 0 where
  running : Worker
  worker_ended : Worker

-- RunWorker before its first line, at its first `get`, behind it, at its second, at the end of its block, where it waits for the
-- worker, and returned.
pub data Caller : Type 0 where
  first_line : Caller
  first_get : Caller
  got : Caller
  second_get : Caller
  joining : Caller
  returned : Caller

pub data State : Type 0 where
  state : (future : Future) (worker : Worker) (caller : Caller) (printed : List Output) → State

-- The three programs; the third calls `get` twice.
pub data Program : Type 0 where
  async future shared_future : Program

module _ (program : Program) (n : ℤ) where
  pub data Step : State → State → Type 0 where
    set_result :
        {c : Caller} {r : Result} {out : List Output}
        → worker_function n ≡ some r
        → Step (state pending running c out) (state (ready r) worker_ended c out)
    print_label :
        {f : Future} {w : Worker} {out : List Output}
        → Step (state f w first_line out) (state f w first_get (out ++ (result_label ∷ [])))
    get_value :
        {w : Worker} {v : ℤ} {out : List Output}
        → Step
            (state (ready (value v)) w first_get out)
            (state no_shared_state w got (out ++ (number v ∷ [])))
    get_throws :
        {w : Worker} {e : Exception} {out : List Output}
        → Step
            (state (ready (exception e)) w first_get out)
            (state no_shared_state w joining (out ++ (caught e ∷ [])))
    leave :
        {w : Worker} {out : List Output}
        → program ≢ shared_future
        → Step (state no_shared_state w got out) (state no_shared_state w joining out)
    try_again :
        {w : Worker} {out : List Output}
        → program ≡ shared_future
        → Step
            (state no_shared_state w got out)
            (state no_shared_state w second_get (out ++ (another_label ∷ [])))
    get_again_throws :
        {w : Worker} {out : List Output}
        → Step
            (state no_shared_state w second_get out)
            (state no_shared_state w joining (out ++ (caught no_state ∷ [])))
    join :
        {out : List Output}
        → Step
            (state no_shared_state worker_ended joining out)
            (state no_shared_state worker_ended returned out)

  abbrev pub start : State
  start = state pending running first_line []

  pub data Reach : State → Type 0 where
    here : Reach start
    later : {s t : State} → Reach s → Step s t → Reach t
