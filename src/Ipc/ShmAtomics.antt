-- ===== src/Ipc/ShmAtomics.antt =====
-- ipc/shm_atomics.cpp: a child that pushes numbers on a BufferedLockFreeSPSCStack in shared memory,
-- and a parent that pops them. The stack's code is that of lock_free/spsc_stack.cpp, and its steps
-- are those of LockFree/ArrayStack.
pub mod Balance
mod Tests
use hse_multithreading_examp.Prelude.{
  ℕ, ◌+◌, ◌<◌, ◌≡◌, Bool, true, false, Option, none, some, List, ◌==◌, if◌then◌else◌,
}
use hse_multithreading_examp.Threads.{System}
use hse_multithreading_examp.LockFree.ArrayStack
use hse_multithreading_examp.LockFree.ArrayStack.{Stack, idle, push_load, pushed, pop_load, popped}

-- The child's loop at `i` and the parent's at `consumed`, with where its call of Push or Pop stands.
pub data Pc : Type 0 where
  producing : (i : ℕ) (call : ArrayStack.Pc ℕ) → Pc
  consuming : (consumed : ℕ) (call : ArrayStack.Pc ℕ) → Pc

-- Whether a call has begun and not yet returned.
abbrev pub is_called : ArrayStack.Pc ℕ → Bool
is_called ArrayStack.Pc.idle = false
is_called (ArrayStack.Pc.pushed done) = false
is_called (ArrayStack.Pc.popped r) = false
is_called _ = true

-- `elements` stands for NumberOfElements.
pub data Move (elements capacity : ℕ) (s : Stack ℕ) : Pc → Stack ℕ → Pc → Type 0 where
  push_call :
      {i : ℕ}
      → i < elements
      → Move elements capacity s (producing i idle) s (producing i (push_load i))
  push_step :
      {i : ℕ} {p p' : ArrayStack.Pc ℕ} {s' : Stack ℕ}
      → is_called p ≡ true
      → ArrayStack.Move capacity 0 s p s' p'
      → Move elements capacity s (producing i p) s' (producing i p')
  push_again :
      {i done : ℕ}
      → done ≡ 0
      → Move elements capacity s (producing i (pushed done)) s (producing i idle)
  push_next :
      {i done : ℕ}
      → done ≡ 1
      → Move elements capacity s (producing i (pushed done)) s (producing (i + 1) idle)
  pop_call :
      {n : ℕ} → n < elements → Move elements capacity s (consuming n idle) s (consuming n pop_load)
  pop_step :
      {n : ℕ} {p p' : ArrayStack.Pc ℕ} {s' : Stack ℕ}
      → is_called p ≡ true
      → ArrayStack.Move capacity 0 s p s' p'
      → Move elements capacity s (consuming n p) s' (consuming n p')
  pop_again : {n : ℕ} → Move elements capacity s (consuming n (popped none)) s (consuming n idle)
  pop_next :
      {n v : ℕ}
      → Move elements capacity s (consuming n (popped (some v))) s (consuming (n + 1) idle)

-- The child is thread 0 and the parent thread 1; there are no others.
abbrev pub start : ℕ → List ℕ → System (Stack ℕ) Pc
start elements buffer = record {
  mem = record { head = 0; buffer = buffer };
  pc = λ i.
      if i == 0
      then producing 0 idle
      else if i == 1
      then consuming 0 idle
      else producing elements idle;
}
