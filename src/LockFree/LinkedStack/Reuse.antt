-- ===== src/LockFree/LinkedStack/Reuse.antt =====
-- LockFreeSPSCStack with two consumers: one deletes the node that the other is about to read.
use hse_multithreading_examp.Prelude.{update_self, sym, ℕ, ◌≡◌, ◌≢◌, refl, true, false, update}
use hse_multithreading_examp.Threads.{System, Reach, here, later, pick}
use hse_multithreading_examp.LockFree.LinkedStack.{
  Heap, Pc, pop_test, Move, start_push, new_node, load_next, push_done, start_pop, load_head,
  read_next, pop_done, take, delete, start,
}

-- Of two consumers and a producer, whatever the value pushed and the address of its node, one can
-- delete the node while the other holds its address and reads its `next` in the next step.
pub use_after_free :
    {T : Type 0} (blank value : T) (p : ℕ)
    → p ≢ 0
    → (t : System (Heap T) (Pc T)) × Reach Move (start blank 2) t
      × (t.pc 1 ≡ pop_test p)
      × (t.mem.alive p ≡ false)
use_after_free blank value p ne = (
  _,
  later
      (later
        (later
          (later
            (later
              (later
                (later
                  (later
                    (later
                      (later
                        (later (later here (pick 2 (start_push value)))
                          (pick 2 (new_node p ne refl)))
                        (pick 2 load_next))
                      (pick 2 (push_done same_next)))
                    (pick 0 start_pop))
                  (pick 1 start_pop))
                (pick 1 load_head))
              (pick 0 load_head))
            (pick 0 (read_next ne)))
          (pick 0 (pop_done refl)))
        (pick 0 take))
      (pick 0 delete),
  refl,
  update_self (update (λ _. false) p true) p false,
)
  where
    same_next : ◌≡◌ {A = ℕ} 0 (update (update (λ _. 0) p 0) p 0 p)
    same_next = sym (update_self (update (λ _. 0) p 0) p 0)
