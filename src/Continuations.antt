-- ===== src/Continuations.antt =====
-- structured_concurrency/continuations.cpp: chains of functions over stdexec, which is an interface here,
-- with what its documentation says of `just`, `then`, `starts_on` and `sync_wait` as laws.
mod Tests
use hse_multithreading_examp.Prelude.{
  ℕ, ◌+◌, ◌*◌, ◌/◌, ◌%◌, ◌^◌, ◌<◌, ◌≡◌, refl, ap, ◌∙◌, List, [], ◌∷◌, ◌++◌, arith,
}

pub data Line : Type 0 where
  adder multiplier divider : ℕ → Line
  result : ℕ → Line
  exception_caught : Line

-- How a function or a sender completes; the only exception is "Some error".
pub data Completion : Type 0 where
  value : ℕ → Completion
  error : Completion

-- What is printed, and how it completes.
abbrev pub Outcome : Type 0
Outcome = List Line × Completion

-- The next function is called with the value, and not at all after an error.
abbrev pub and_then : Outcome → (ℕ → Outcome) → Outcome
and_then (out, value v) f = (out ++ (f v).0, (f v).1)
and_then (out, error) f = (out, error)

pub record Execution : Type 1 where
  pub Scheduler : Type 0
  pub Sender : Type 0
  pub just : ℕ → Sender
  pub then_call : Sender → (ℕ → Outcome) → Sender
  pub starts_on : Scheduler → Sender → Sender
  pub sync_wait : Sender → Outcome

pub record IsExecution (e : Execution) : Type 0 where
  pub just_law : (i : ℕ) → e.sync_wait (e.just i) ≡ ([], value i)
  pub then_law :
      (s : e.Sender) (f : ℕ → Outcome) → e.sync_wait (e.then_call s f) ≡ and_then (e.sync_wait s) f
  pub starts_on_law :
      (scheduler : e.Scheduler) (s : e.Sender)
      → e.sync_wait (e.starts_on scheduler s) ≡ e.sync_wait s

-- The ints here are not negative; they are taken modulo 2 ^ 32.
unfoldable pub add_ten : ℕ → Outcome
add_ten i = (adder i ∷ [], value ((i + 10) % 2 ^ 32))

unfoldable pub multiply : ℕ → Outcome
multiply i = (multiplier i ∷ [], value (i * 2 % 2 ^ 32))

unfoldable pub divide : ℕ → Outcome
divide i = (divider i ∷ [], value (i / 3))

unfoldable pub error_spawner : ℕ → Outcome
error_spawner i = ([], error)

-- What is printed of the work's outcome.
abbrev pub printed : Outcome → List Line
printed (out, value v) = out ++ (result v ∷ [])
printed (out, error) = out ++ (exception_caught ∷ [])

-- HappyPath and ErrorPath, with the value that the chain starts from, 20 in the source.
module _ (e : Execution) where
  unfoldable pub happy_path : e.Scheduler → ℕ → List Line
  happy_path scheduler i =
      let work =
        e.starts_on scheduler
          (e.then_call (e.then_call (e.then_call (e.just i) add_ten) multiply) divide) in
      printed (e.sync_wait work)

  unfoldable pub error_path : e.Scheduler → ℕ → List Line
  error_path scheduler i =
      let work = e.starts_on scheduler (
        e.then_call
          (e.then_call (e.then_call (e.then_call (e.just i) add_ten) multiply) error_spawner)
          divide) in
      printed (e.sync_wait work)

module _ (e : Execution) (law : IsExecution e) (i : ℕ) (small : (i + 10) * 2 < 2 ^ 31) where
  after_two :
      e.sync_wait (e.then_call (e.then_call (e.just i) add_ten) multiply)
      ≡ (adder i ∷ multiplier (i + 10) ∷ [], value ((i + 10) * 2))
  unfolding add_ten multiply
  after_two =
      let a : (i + 10) % 2 ^ 32 ≡ i + 10 = omega arith in
      let b : (i + 10) * 2 % 2 ^ 32 ≡ (i + 10) * 2 = omega arith in
      law.then_law (e.then_call (e.just i) add_ten) multiply
      ∙ ap (λ o. and_then o multiply)
          (law.then_law (e.just i) add_ten ∙ ap (λ o. and_then o add_ten) (law.just_law i))
      ∙ rw (a, b) refl

-- Over any library that keeps to its documentation, and for every int that is not negative and small
-- enough: HappyPath calls the three functions in order, each with what the one before has returned, and
-- prints the last result; in ErrorPath the function behind the one that throws is not called, and the
-- exception is caught.
pub paths_print :
    (e : Execution) (law : IsExecution e) (scheduler : e.Scheduler) (i : ℕ)
    → (i + 10) * 2 < 2 ^ 31
    → (happy_path e scheduler i
        ≡ adder i ∷ multiplier (i + 10) ∷ divider ((i + 10) * 2) ∷ result ((i + 10) * 2 / 3) ∷ [])
      × (error_path e scheduler i ≡ adder i ∷ multiplier (i + 10) ∷ exception_caught ∷ [])
unfolding happy_path error_path divide error_spawner
paths_print e law scheduler i small =
    let two = e.then_call (e.then_call (e.just i) add_ten) multiply in
    let waited = after_two e law i small in
    (
      ap printed (
          law.starts_on_law scheduler (e.then_call two divide)
          ∙ law.then_law two divide
          ∙ ap (λ o. and_then o divide) waited),
      ap printed (
          law.starts_on_law scheduler (e.then_call (e.then_call two error_spawner) divide)
          ∙ law.then_law (e.then_call two error_spawner) divide
          ∙ ap (λ o. and_then o divide)
              (law.then_law two error_spawner ∙ ap (λ o. and_then o error_spawner) waited)),
    )
