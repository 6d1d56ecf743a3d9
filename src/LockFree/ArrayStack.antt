-- ===== src/LockFree/ArrayStack.antt =====
-- BufferedLockFreeSPSCStack of lock_free/spsc_stack.cpp: an array and an atomic count, one shared
-- access a step, for any number of threads.
pub mod Bounds
pub mod Alone
pub mod Race
use hse_multithreading_examp.Prelude.{
  ℕ, ◌+◌, ◌-◌, ◌<◌, ◌≡◌, ◌≢◌, Option, none, some, List, set, get_or, length, zero, suc, ltb,
  if◌then◌else◌,
}
use hse_multithreading_examp.Threads.{System}

-- `m_head` and `m_buffer`; the buffer has `Capacity` cells.
pub record Stack (T : Type 0) : Type 0 where
  pub head : ℕ
  pub buffer : List T

-- Where a thread stands in `Push(value)` or `Pop()`, with its local `top`, and what the call
-- returned. A thread that is `idle` may start either; one that returned may go on. An access that is not to
-- one of the cells has no meaning, and ends the thread here.
pub data Pc (T : Type 0) : Type 0 where
  idle : Pc T
  push_load : (value : T) → Pc T
  push_test : (value : T) (top : ℕ) → Pc T
  push_write : (value : T) (top : ℕ) → Pc T
  pushed : (done : ℕ) → Pc T
  pop_load : Pc T
  pop_test : (top : ℕ) → Pc T
  pop_read : (top : ℕ) → Pc T
  popped : Option T → Pc T
  out_of_bounds : Pc T

module _ {T : Type 0} (capacity : ℕ) (blank : T) where
  -- `m_buffer[top] = value`, and `m_buffer[top - 1]`, where the index is an int.
  abbrev pub after_write : ℕ → Pc T
  after_write top = if ltb top capacity then pushed 1 else out_of_bounds

  abbrev pub after_read : List T → ℕ → Pc T
  after_read buffer zero = out_of_bounds
  after_read buffer (suc i) =
      if ltb i capacity then popped (some (get_or buffer i blank)) else out_of_bounds

  -- One step of a thread. `compare_exchange_weak` may fail although the values agree; after a
  -- failure the loop loads `m_head` again.
  pub data Move (s : Stack T) : Pc T → Stack T → Pc T → Type 0 where
    start_push : (value : T) → Move s idle s (push_load value)
    start_pop : Move s idle s pop_load
    load_for_push : {value : T} → Move s (push_load value) s (push_test value s.head)
    full : {value : T} {top : ℕ} → top ≡ capacity → Move s (push_test value top) s (pushed 0)
    claim :
        {value : T} {top : ℕ}
        → top ≢ capacity
        → s.head ≡ top
        → Move s (push_test value top) (record s { head = top + 1 }) (push_write value top)
    claim_fails :
        {value : T} {top : ℕ} → top ≢ capacity → Move s (push_test value top) s (push_load value)
    write :
        {value : T} {top : ℕ}
        → Move s
            (push_write value top)
            (record s { buffer = set s.buffer top value })
            (after_write top)
    load_for_pop : Move s pop_load s (pop_test s.head)
    empty : {top : ℕ} → top ≡ 0 → Move s (pop_test top) s (popped none)
    release :
        {top : ℕ}
        → top ≢ 0
        → s.head ≡ top
        → Move s (pop_test top) (record s { head = top - 1 }) (pop_read top)
    release_fails : {top : ℕ} → top ≢ 0 → Move s (pop_test top) s pop_load
    read : {top : ℕ} → Move s (pop_read top) s (after_read s.buffer top)
    next_push : {done : ℕ} → Move s (pushed done) s idle
    next_pop : {r : Option T} → Move s (popped r) s idle
