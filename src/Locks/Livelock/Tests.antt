-- ===== src/Locks/Livelock/Tests.antt =====
-- The theorem on two timed mutexes at a run of the source's threads in which both give up.
use hse_multithreading_examp.Prelude.{update, ℕ, ◌<◌, ◌≤◌, ◌≡◌, ◌⊎◌, refl, Bool, true, false, ◌==◌}
use hse_multithreading_examp.Threads.{System, Step, Reach, here, later, pick}
use hse_multithreading_examp.Locks.Deadlock.{
  Mutexes, Pc, at, second, done, half, lock_first, unlock_first,
}
use hse_multithreading_examp.Locks.Livelock.{Move, step, second_times_out, start}
use hse_multithreading_examp.Locks.Livelock.Ending.{steps, threads_return}

abbrev order : ℕ → Bool
order i = i == 1

abbrev given_up : System Mutexes Pc
given_up = record {
  mem = record { m1 = false; m2 = false };
  pc =
      update
        (update
          (update
            (update (update (update (start 2 order).pc 0 (at false second)) 1 (at true second)) 0
              (at false half))
            1 (at true half))
          0 (at false done))
        1 (at true done);
}

given_up_reached : Reach Move (start 2 order) given_up
given_up_reached =
    later
      (later
        (later
          (later
            (later (later here (pick 0 (step (lock_first refl)))) (pick 1 (step (lock_first refl))))
            (pick 0 second_times_out))
          (pick 1 second_times_out))
        (pick 0 (step unlock_first)))
      (pick 1 (step unlock_first))

threads_return_example :
    (steps given_up_reached ≤ 8)
    × (((u : System Mutexes Pc) × Step Move given_up u)
        ⊎ (((i : ℕ) → i < 2 → (s : Bool) × (given_up.pc i ≡ at s done))
            × (given_up.mem.m1 ≡ false)
            × (given_up.mem.m2 ≡ false)))
threads_return_example = threads_return 2 order given_up_reached
