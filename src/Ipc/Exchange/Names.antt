-- ===== src/Ipc/Exchange/Names.antt =====
-- ipc/shm_intro.cpp and ipc/mmap_intro.cpp before their loops and after them: the names of the
-- semaphores and of the shared memory, which outlive the processes.
pub mod Ends
mod Tests
use hse_multithreading_examp.Prelude.{
  ℕ, zero, suc, ◌-◌, ◌+◌, ◌%◌, ◌^◌, ◌≡◌, ◌≢◌, refl, Bool, true, false, Option, none, some, List, [],
  ◌∷◌, replicate, arith, if◌then◌else◌, length, Bool-cases, inl, inr, ap, ◌∙◌,
}
use hse_multithreading_examp.Ipc.Text.{stored}
use hse_multithreading_examp.Ipc.Exchange.{
  buffer_size, SharedData, get_line, await, sleep, child_exited, Shown, State, state, Step,
  read_line, write_buffer, post_write, wait_read, wait_write, stop, start, Reach, here, later,
}
use hse_multithreading_examp.Ipc.Exchange.Turns.{printed, HasExited}

-- The value of "/write_sema" and of "/read_done_sema" and the size of "/kafka", for those that exist.
pub record Names : Type 0 where
  pub write_sema : Option ℕ
  pub read_done_sema : Option ℕ
  pub kafka : Option ℕ

-- The calls that a program gives up on when they fail, and `unlink_old`, the first shm_unlink of
-- shm_intro.cpp, whose failure it ignores.
pub data Call : Type 0 where
  open_write open_read_done unlink_old open_shm truncate map_memory fork_child : Call
  wait_end unlink_read_done unlink_write unmap_memory unlink_shm : Call

-- Where the memory comes from: "/kafka" in shm_intro.cpp, an anonymous mapping in mmap_intro.cpp.
pub data Memory : Type 0 where
  object anonymous : Memory

-- `sem_open(path, O_CREAT, 0666, 0)`: a semaphore that exists keeps its value.
abbrev pub value_of : Option ℕ → ℕ
value_of none = 0
value_of (some v) = v

module _ (fails : Call → Bool) where
  abbrev pub make_write : Names → Bool × Names
  make_write n =
      if fails open_write
      then (false, n)
      else (true, record n { write_sema = some (value_of n.write_sema) })

  abbrev pub make_read_done : Names → Bool × Names
  make_read_done n =
      if fails open_read_done
      then (false, n)
      else (true, record n { read_done_sema = some (value_of n.read_done_sema) })

  -- The shm_unlink on purpose without a test.
  abbrev pub without_old : Names → Names
  without_old n = if fails unlink_old then n else record n { kafka = none }

  -- From behind the second semaphore to `fork`; shm_open with O_CREAT opens an object that is there.
  unfoldable pub share : Memory → Names → Bool × Names
  share object n =
      let n1 = without_old n in
      if fails open_shm
      then (false, n1)
      else if fails truncate
      then (false, record n1 { kafka = some (value_of n1.kafka) })
      else if fails map_memory
      then (false, record n1 { kafka = some 4096 })
      else if fails fork_child
      then (false, record n1 { kafka = some 4096 })
      else (true, record n1 { kafka = some 4096 })
  share anonymous n =
      if fails map_memory then (false, n) else if fails fork_child then (false, n) else (true, n)

  -- The start of the two programs: whether they get to their loops, and the names then.
  unfoldable pub set_up : Memory → Names → Bool × Names
  set_up memory n =
      let (made_write, n1) = make_write n in
      let (made_read_done, n2) = make_read_done n1 in
      if made_write then (if made_read_done then share memory n2 else (false, n2)) else (false, n1)

  abbrev pub unlink_object : Memory → Names → Bool × Names
  unlink_object object n =
      if fails unlink_shm then (false, n) else (true, record n { kafka = none })
  unlink_object anonymous n = (true, n)

  -- What the parent does behind its loop, up to the first call that fails.
  unfoldable pub clean_up : Memory → Names → Bool × Names
  clean_up memory n =
      if fails wait_end
      then (false, n)
      else if fails unlink_read_done
      then (false, n)
      else if fails unlink_write
      then (false, record n { read_done_sema = none })
      else if fails unmap_memory
      then (false, record n { read_done_sema = none; write_sema = none })
      else unlink_object memory (record n { read_done_sema = none; write_sema = none })

-- The loops start with what the semaphores hold, and with cleared memory.
abbrev pub begin : Names → List (List ℕ) → State
begin n lines =
    state (record { message_size = 0; buffer = replicate buffer_size 0 }) (value_of n.write_sema)
      (value_of n.read_done_sema) (get_line lines) sleep []
