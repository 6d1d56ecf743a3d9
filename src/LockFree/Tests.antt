-- ===== src/LockFree/Tests.antt =====
-- The lock-free theorems at concrete runs.
use hse_multithreading_examp.Prelude.{some, ℕ, ◌≡◌, arith, [], ◌∷◌}
use hse_multithreading_examp.Threads.{System, Reach}
use hse_multithreading_examp.LockFree.ArrayStack.{Stack, Pc, Move}
use hse_multithreading_examp.LockFree.ArrayStack.Race.{start, stale_read}

stale_read_example :
    (t : System (Stack ℕ) (Pc ℕ)) × Reach (Move 2 0) (start (0 ∷ 0 ∷ [])) t
    × (t.pc 0 ≡ Pc.push_write 7 0)
    × (t.pc 1 ≡ Pc.popped (some 0))
stale_read_example = stale_read 2 0 (0 ∷ 0 ∷ []) 7 (omega arith)
