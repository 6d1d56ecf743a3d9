-- ===== src/LockFree/LockedStack.antt =====
-- SPSCStack of lock_free/spsc_stack.cpp, a stack under a mutex, and `main`'s producer and consumer
-- over it, one mutex operation or one access under it a step.
pub mod Balance
use hse_multithreading_examp.Prelude.{
  ℕ, ◌+◌, ◌<◌, ◌≤◌, ◌≡◌, Bool, true, false, Option, none, some, List, [], ◌∷◌,
}

-- `m_stack`, the top first; `Push` and `Pop` while the mutex is held.
unfoldable pub push : List ℕ → ℕ → List ℕ
push stack value = value ∷ stack

unfoldable pub pop : List ℕ → Option ℕ × List ℕ
pop [] = (none, [])
pop (top ∷ rest) = (some top, rest)

-- The producer's loop at `i`, and the consumer's at `consumed`: before a call, with the mutex,
-- and with the mutex after the access.
pub data Producer : Type 0 where
  to_push : (i : ℕ) → Producer
  pushing : (i : ℕ) → Producer
  pushed : (i : ℕ) → Producer

pub data Consumer : Type 0 where
  to_pop : (consumed : ℕ) → Consumer
  popping : (consumed : ℕ) → Consumer
  popped : (consumed : ℕ) (value : Option ℕ) → Consumer

pub record Program : Type 0 where
  pub locked : Bool
  pub stack : List ℕ
  pub producer : Producer
  pub consumer : Consumer

-- What the consumer's count is after a call.
unfoldable pub count : ℕ → Option ℕ → ℕ
count consumed none = consumed
count consumed (some value) = consumed + 1

-- `elements` stands for NumberOfElements.
pub data Step (elements : ℕ) (s : Program) : Program → Type 0 where
  push_lock :
      (i : ℕ)
      → s.producer ≡ to_push i
      → i < elements
      → s.locked ≡ false
      → Step elements s (record s { locked = true; producer = pushing i })
  push_body :
      (i : ℕ)
      → s.producer ≡ pushing i
      → Step elements s (record s { stack = push s.stack i; producer = pushed i })
  push_unlock :
      (i : ℕ)
      → s.producer ≡ pushed i
      → Step elements s (record s { locked = false; producer = to_push (i + 1) })
  pop_lock :
      (n : ℕ)
      → s.consumer ≡ to_pop n
      → n < elements
      → s.locked ≡ false
      → Step elements s (record s { locked = true; consumer = popping n })
  pop_body :
      (n : ℕ)
      → s.consumer ≡ popping n
      → Step elements s (record s { stack = (pop s.stack).1; consumer = popped n (pop s.stack).0 })
  pop_unlock :
      (n : ℕ) (value : Option ℕ)
      → s.consumer ≡ popped n value
      → Step elements s (record s { locked = false; consumer = to_pop (count n value) })

abbrev pub start : Program
start = record { locked = false; stack = []; producer = to_push 0; consumer = to_pop 0 }

pub data Reach (elements : ℕ) : Program → Type 0 where
  begin : Reach elements start
  later : {s t : Program} → Reach elements s → Step elements s t → Reach elements t
