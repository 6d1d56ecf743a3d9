-- ===== src/Ipc/ShmAtomics/Tests.antt =====
-- One element through the stack of ipc/shm_atomics.cpp.
use hse_multithreading_examp.Prelude.{ℕ, some, ◌≢◌, ◌+◌, ◌≤◌, ◌≡◌, refl, arith, [], ◌∷◌, update}
use hse_multithreading_examp.Threads.{System, Reach, here, later, pick, total}
use hse_multithreading_examp.LockFree.ArrayStack
use hse_multithreading_examp.LockFree.ArrayStack.{Stack, idle, out_of_bounds}
use hse_multithreading_examp.Ipc.ShmAtomics.{
  Pc, producing, consuming, Move, push_call, push_step, pop_call, pop_step, start,
}
use hse_multithreading_examp.Ipc.ShmAtomics.Balance.{put_in, taken_out, call_of, processes_balance}

-- The child has claimed the first cell for 0 and is about to write it.
abbrev claimed : System (Stack ℕ) Pc
claimed = record {
  mem = record { head = 1; buffer = 0 ∷ 0 ∷ [] };
  pc =
      update
        (update (update (start 1 (0 ∷ 0 ∷ [])).pc 0 (producing 0 (ArrayStack.Pc.push_load 0))) 0
          (producing 0 (ArrayStack.Pc.push_test 0 0)))
        0 (producing 0 (ArrayStack.Pc.push_write 0 0));
}

claimed_reached : Reach (Move 1 2) (start 1 (0 ∷ 0 ∷ [])) claimed
claimed_reached =
    later
      (later (later here (pick 0 (push_call (omega arith))))
        (pick 0 (push_step refl ArrayStack.Move.load_for_push)))
      (pick 0 (push_step refl (ArrayStack.Move.claim (omega arith) refl)))

-- It has written it, and the parent has read it.
abbrev read_back : System (Stack ℕ) Pc
read_back = record {
  mem = record { head = 0; buffer = 0 ∷ 0 ∷ [] };
  pc =
      update
        (update
          (update
            (update (update claimed.pc 0 (producing 0 (ArrayStack.Pc.pushed 1))) 1
              (consuming 0 ArrayStack.Pc.pop_load))
            1 (consuming 0 (ArrayStack.Pc.pop_test 1)))
          1 (consuming 0 (ArrayStack.Pc.pop_read 1)))
        1 (consuming 0 (ArrayStack.Pc.popped (some 0)));
}

read_back_reached : Reach (Move 1 2) (start 1 (0 ∷ 0 ∷ [])) read_back
read_back_reached =
    later
      (later
        (later
          (later (later claimed_reached (pick 0 (push_step refl ArrayStack.Move.write)))
            (pick 1 (pop_call (omega arith))))
          (pick 1 (pop_step refl ArrayStack.Move.load_for_pop)))
        (pick 1 (pop_step refl (ArrayStack.Move.release (omega arith) refl))))
      (pick 1 (pop_step refl ArrayStack.Move.read))

processes_balance_example :
    (read_back.mem.head ≤ 2)
    × ((i : ℕ) → call_of (read_back.pc i) ≢ out_of_bounds)
    × (read_back.mem.head + total taken_out 2 read_back.pc ≡ total put_in 2 read_back.pc)
processes_balance_example = processes_balance 1 (0 ∷ 0 ∷ []) read_back_reached
