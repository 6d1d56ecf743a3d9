-- ===== src/Locks/Tests.antt =====
-- The lock theorems at concrete runs.
use hse_multithreading_examp.Locks.Spinlock.{
  leaving, loaded, inside, Shared, Pc, Move, start, enter, load, store, unlock, waiting, leaving,
  inside, loaded,
}
use hse_multithreading_examp.Prelude.{update, false, ℕ, zero, suc, ◌<◌, ◌≡◌, refl, arith}
use hse_multithreading_examp.Threads.{System, Reach, here, later, pick}
use hse_multithreading_examp.Locks.Spinlock.Exclusion.{no_lost_increment}

abbrev done : System Shared Pc
done = record {
  mem = record { locked = false; x = 2 };
  pc =
      update
        (update
          (update
            (update
              (update
                (update (update (update (start 2 1).pc 0 (inside 1)) 0 (loaded 1 0)) 0 (leaving 1))
                0 (waiting 0))
              1 (inside 1))
            1 (loaded 1 1))
          1 (leaving 1))
        1 (waiting 0);
}

done_reached : Reach Move (start 2 1) done
done_reached =
    later
      (later
        (later
          (later
            (later (later (later (later here (pick 0 (enter refl))) (pick 0 load)) (pick 0 store))
              (pick 0 unlock))
            (pick 1 (enter refl)))
          (pick 1 load))
        (pick 1 store))
      (pick 1 unlock)

finished : (i : ℕ) → i < 2 → done.pc i ≡ waiting 0
finished zero lt = refl
finished (suc zero) lt = refl
finished (suc (suc i)) lt = absurd (omega arith)

no_lost_increment_example : done.mem.x ≡ 2
no_lost_increment_example = no_lost_increment 2 1 done_reached finished
