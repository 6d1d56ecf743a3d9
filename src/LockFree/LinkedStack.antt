-- ===== src/LockFree/LinkedStack.antt =====
-- LockFreeSPSCStack of lock_free/spsc_stack.cpp: a linked list of nodes on the heap under an atomic
-- head, one shared access a step, for any number of producers and consumers.
pub mod Chain
pub mod Single
pub mod Steps
pub mod Order
pub mod Reuse
pub mod Destroy
mod Tests
use hse_multithreading_examp.Prelude.{
  ℕ, zero, suc, ◌<◌, ◌≡◌, ◌≢◌, Bool, true, false, Option, none, some, update, ltb, if◌then◌else◌,
  ◌==◌,
}
use hse_multithreading_examp.Threads.{System}

-- `m_head`, and the nodes by their address; 0 is the null pointer. A node that was deleted is not
-- alive, and its address may be given out again.
pub record Heap (T : Type 0) : Type 0 where
  pub head : ℕ
  pub value : ℕ → T
  pub next : ℕ → ℕ
  pub alive : ℕ → Bool

-- Where a thread stands in `Push(value)` or in `Pop()`, with its locals, and what Pop returned.
pub data Pc (T : Type 0) : Type 0 where
  producer : Pc T
  push_new : (value : T) → Pc T
  push_load : (new_head : ℕ) → Pc T
  push_exchange : (new_head : ℕ) → Pc T
  consumer : Pc T
  pop_load : Pc T
  pop_test : (old_head : ℕ) → Pc T
  pop_exchange : (old_head next : ℕ) → Pc T
  pop_take : (old_head : ℕ) → Pc T
  pop_delete : (old_head : ℕ) (result : T) → Pc T
  popped : Option T → Pc T

-- `compare_exchange_weak` may fail although the values agree; a failure stores `m_head` in its
-- first argument. A step on the node of `new_head` touches no other thread's memory.
pub data Move {T : Type 0} (m : Heap T) : Pc T → Heap T → Pc T → Type 0 where
  start_push : (value : T) → Move m producer m (push_new value)
  new_node :
      {value : T} (p : ℕ)
      → p ≢ 0
      → m.alive p ≡ false
      → Move m
          (push_new value)
          (record m {
            value = update m.value p value;
            next = update m.next p 0;
            alive = update m.alive p true;
          })
          (push_load p)
  load_next :
      {p : ℕ} → Move m (push_load p) (record m { next = update m.next p m.head }) (push_exchange p)
  push_done :
      {p : ℕ} → m.head ≡ m.next p → Move m (push_exchange p) (record m { head = p }) producer
  push_fails :
      {p : ℕ}
      → Move m (push_exchange p) (record m { next = update m.next p m.head }) (push_exchange p)
  start_pop : Move m consumer m pop_load
  load_head : Move m pop_load m (pop_test m.head)
  empty : {old : ℕ} → old ≡ 0 → Move m (pop_test old) m (popped none)
  read_next : {old : ℕ} → old ≢ 0 → Move m (pop_test old) m (pop_exchange old (m.next old))
  pop_done :
      {old next : ℕ}
      → m.head ≡ old
      → Move m (pop_exchange old next) (record m { head = next }) (pop_take old)
  pop_fails : {old next : ℕ} → Move m (pop_exchange old next) m (pop_test m.head)
  take : {old : ℕ} → Move m (pop_take old) m (pop_delete old (m.value old))
  delete :
      {old : ℕ} {result : T}
      → Move m
          (pop_delete old result)
          (record m { alive = update m.alive old false })
          (popped (some result))
  return : {result : Option T} → Move m (popped result) m consumer

-- An empty stack with nothing allocated; the first `consumers` threads call Pop, all others Push.
abbrev pub start : {T : Type 0} → T → ℕ → System (Heap T) (Pc T)
start blank consumers = record {
  mem = record { head = 0; value = λ _. blank; next = λ _. 0; alive = λ _. false };
  pc = λ i. if ltb i consumers then consumer else producer;
}

-- The loop of the destructor, which runs when no other thread uses the stack any more. To read or
-- delete a node that is not alive has no meaning: that is `none`, as it is when `fuel` is used up.
unfoldable pub delete_all : {T : Type 0} → ℕ → ℕ → Heap T → Option (Heap T)
delete_all zero head m = none
delete_all (suc fuel) head m =
    let after = delete_all fuel (m.next head) (record m { alive = update m.alive head false }) in
    if head == 0 then some m else if m.alive head then after else none

-- `~LockFreeSPSCStack`
unfoldable pub destroy : {T : Type 0} → ℕ → Heap T → Option (Heap T)
destroy fuel m = delete_all fuel m.head (record m { head = 0 })
