-- ===== src/Ipc/Exchange/Names/Tests.antt =====
-- The names of the exchange at a machine that kept a semaphore.
use hse_multithreading_examp.Prelude.{◌≡◌, Bool, true, false, none, some, [], ◌∷◌}
use hse_multithreading_examp.Ipc.Exchange.{State, Step, Reach}
use hse_multithreading_examp.Ipc.Exchange.Turns.{printed, HasExited}
use hse_multithreading_examp.Ipc.Exchange.Names.{Names, Call, unlink_old, map_memory, begin}
use hse_multithreading_examp.Ipc.Exchange.Names.Ends.{leftover_blocks}

-- The mapping fails, and the shm_unlink before it.
abbrev two_fail : Call → Bool
two_fail unlink_old = true
two_fail map_memory = true
two_fail _ = false

abbrev kept_write : Names
kept_write = record { write_sema = some 1; read_done_sema = none; kafka = some 7 }

leftover_blocks_example :
    (t : State) × Reach (begin kept_write ((104 ∷ []) ∷ [])) t
    × ((u : State) → ¬ Step t u)
    × ¬ HasExited t
    × (printed t ≡ [])
leftover_blocks_example = leftover_blocks 0 (some 7) (104 ∷ []) []
