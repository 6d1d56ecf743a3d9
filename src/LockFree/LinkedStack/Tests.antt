-- ===== src/LockFree/LinkedStack/Tests.antt =====
-- The theorems on LockFreeSPSCStack at concrete runs.
use hse_multithreading_examp.Prelude.{
  ℕ, zero, suc, ◌<◌, ◌≡◌, ◌≢◌, ◌⊎◌, inl, inr, refl, true, false, some, arith, update, List,
}
use hse_multithreading_examp.LockFree.LinkedStack.{
  consumer, Heap, Pc, push_load, push_exchange, producer, consumer, pop_test, Move, start_push,
  new_node, load_next, push_done, start, destroy,
}
use hse_multithreading_examp.Threads.{System, Reach, here, later, pick}
use hse_multithreading_examp.LockFree.LinkedStack.Single.{Changes}
use hse_multithreading_examp.LockFree.LinkedStack.Order.{Holds, no_use_after_free, steps_of_stack}
use hse_multithreading_examp.LockFree.LinkedStack.Destroy.{destroy_all}
use hse_multithreading_examp.LockFree.LinkedStack.Reuse.{use_after_free}

-- A producer has allocated node 5 for the value 7.
abbrev allocated : System (Heap ℕ) (Pc ℕ)
allocated = record {
  mem = record {
    head = 0;
    value = update (λ _. 0) 5 7;
    next = update (λ _. 0) 5 0;
    alive = update (λ _. false) 5 true;
  };
  pc = update (update (start 0 1).pc 1 (Pc.push_new 7)) 1 (push_load 5);
}

allocated_reached : Reach Move (start 0 1) allocated
allocated_reached =
    later (later here (pick 1 (start_push 7))) (pick 1 (new_node 5 (omega arith) refl))

no_use_after_free_example : allocated.mem.alive 5 ≡ true
no_use_after_free_example = no_use_after_free 0 allocated_reached 1 (omega arith)

-- It has stored the head in the node's `next`, and its exchange is about to succeed.
abbrev linked : System (Heap ℕ) (Pc ℕ)
linked = record {
  mem = record allocated.mem { next = update allocated.mem.next 5 0 };
  pc = update allocated.pc 1 (push_exchange 5);
}

linked_reached : Reach Move (start 0 1) linked
linked_reached = later allocated_reached (pick 1 load_next)

-- It has pushed the node.
abbrev pushed : System (Heap ℕ) (Pc ℕ)
pushed = record { mem = record linked.mem { head = 5 }; pc = update linked.pc 1 producer }

pushed_reached : Reach Move (start 0 1) pushed
pushed_reached = later linked_reached (pick 1 (push_done refl))

pushed_idle : (i : ℕ) → (pushed.pc i ≡ producer) ⊎ (pushed.pc i ≡ consumer)
pushed_idle zero = inr refl
pushed_idle (suc zero) = inl refl
pushed_idle (suc (suc i)) = inl (ground arith)

destroy_all_example :
    (nodes : ℕ) × ((fuel : ℕ)
      → nodes < fuel
      → (m : Heap ℕ) × (destroy fuel pushed.mem ≡ some m)
        × (m.head ≡ 0)
        × ((a : ℕ) → a ≢ 0 → m.alive a ≡ false))
destroy_all_example = destroy_all 0 pushed_reached pushed_idle

steps_of_stack_example :
    (before after : List ℕ) × Holds linked.mem before
    × Holds (record linked.mem { head = 5 }) after
    × Changes linked.mem.value (push_exchange 5) producer before after
steps_of_stack_example = steps_of_stack 0 linked_reached 1 (push_done refl)

use_after_free_example :
    (t : System (Heap ℕ) (Pc ℕ)) × Reach Move (start 0 2) t
    × (t.pc 1 ≡ pop_test 5)
    × (t.mem.alive 5 ≡ false)
use_after_free_example = use_after_free 0 7 5 (omega arith)
