-- ===== src/LockFree/ArrayStack/Race.antt =====
-- Between the compare-exchange of Push and its write to the buffer, another thread's Pop of
-- BufferedLockFreeSPSCStack reads a cell that was not written.
use hse_multithreading_examp.Prelude.{ℕ, ◌<◌, ◌≡◌, refl, some, List, get_or, arith, lt→ltb}
use hse_multithreading_examp.Threads.{System, Reach, here, later, pick}
use hse_multithreading_examp.LockFree.ArrayStack.{
  Stack, Pc, idle, push_write, popped, Move, start_push, load_for_push, claim, start_pop,
  load_for_pop, release, read,
}

-- An empty stack over a buffer, and threads that have done nothing yet.
abbrev pub start : {T : Type 0} → List T → System (Stack T) (Pc T)
start buffer = record { mem = record { head = 0; buffer = buffer }; pc = λ _. idle }

-- One producer and one consumer: while the only Push, of any value, is still to write its cell, a
-- Pop can return what the buffer held from the start.
pub stale_read :
    {T : Type 0} (capacity : ℕ) (blank : T) (buffer : List T) (value : T)
    → 0 < capacity
    → (t : System (Stack T) (Pc T)) × Reach (Move capacity blank) (start buffer) t
      × (t.pc 0 ≡ push_write value 0)
      × (t.pc 1 ≡ popped (some (get_or buffer 0 blank)))
stale_read capacity blank buffer value room = (
  _,
  later
      (later
        (later
          (later
            (later (later (later here (pick 0 (start_push value))) (pick 0 load_for_push))
              (pick 0 (claim (omega arith) refl)))
            (pick 1 start_pop))
          (pick 1 load_for_pop))
        (pick 1 (release (omega arith) refl)))
      (pick 1 read),
  refl,
  rw (lt→ltb 0 capacity room),
)
