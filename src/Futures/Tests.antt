-- ===== src/Futures/Tests.antt =====
-- The theorem at a worker that has set 20.
use hse_multithreading_examp.Prelude.{◌⊎◌, refl, [], ◌∷◌, arith}
use hse_multithreading_examp.Futures.{
  pos, State, state, no_shared_state, worker_function, worker_ended, result_label, another_label,
  number, caught, no_state, returned, shared_future, Step, set_result, print_label, get_value,
  try_again, get_again_throws, join, Reach, here, later,
}
use hse_multithreading_examp.Futures.Printed.{HasReturned, run_worker_prints}

abbrev second_try : State
second_try =
    state no_shared_state worker_ended returned
      (result_label ∷ number (pos 20) ∷ another_label ∷ caught no_state ∷ [])

second_try_reached : Reach shared_future (pos 10) second_try
unfolding worker_function
second_try_reached =
    later
      (later
        (later (later (later (later here print_label) (set_result refl)) get_value)
          (try_again refl))
        get_again_throws)
      join

run_worker_prints_example :
    HasReturned shared_future (pos 10) second_try
    ⊎ ((t : State) × Step shared_future (pos 10) second_try t)
run_worker_prints_example =
    run_worker_prints shared_future (pos 10) (omega arith) second_try_reached
