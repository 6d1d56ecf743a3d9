-- ===== src/Conditions/Tests.antt =====
-- The theorems on condition variables at concrete inputs.
use hse_multithreading_examp.Conditions.Worker.{
  State, state, join, wait, Step, start, Reach, worker_never_stops,
}
use hse_multithreading_examp.Prelude.{◌≡◌, true, [], ◌∷◌}
use hse_multithreading_examp.Threads.{System}
use hse_multithreading_examp.Threads
use hse_multithreading_examp.Conditions.CvLock.{Shared, Pc, loaded, Move, both_inside}
use hse_multithreading_examp.Conditions.CvLock

both_inside_example :
    (t : System Shared Pc) × Threads.Reach Move (CvLock.start 1000) t
    × (t.pc 0 ≡ loaded 999 1)
    × (t.pc 1 ≡ loaded 1000 1)
both_inside_example = both_inside 998

worker_never_stops_example :
    Reach (start (10 ∷ 4 ∷ 5 ∷ [])) (state [] true join wait (10 ∷ 4 ∷ 5 ∷ []))
    × ((u : State) → ¬ Step (state [] true join wait (10 ∷ 4 ∷ 5 ∷ [])) u)
worker_never_stops_example = worker_never_stops (10 ∷ 4 ∷ 5 ∷ [])
