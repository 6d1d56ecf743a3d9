-- ===== src/Locks/DataManager/Tests.antt =====
-- A run of DataManager: one thread stores two elements, and another copies them.
use hse_multithreading_examp.Locks.DataManager.{
  Manager, Pc, returned, Move, call_change, lock_change, move_data, unlock_change, call_copy,
  lock_copy, take_size, next_element, all_copied, unlock_copy, start,
}
use hse_multithreading_examp.Prelude.{ℕ, ◌≡◌, ◌⊎◌, refl, List, [], ◌∷◌, arith}
use hse_multithreading_examp.Threads.{System, Reach, here, later, pick}
use hse_multithreading_examp.Locks.DataManager.Copies.{copies_whole}

abbrev two_elements : List ℕ
two_elements = 1 ∷ 2 ∷ []

abbrev Calls : List ℕ → Type 0
Calls d = d ≡ two_elements

copied_reached :
    (t : System (Manager ℕ) (Pc ℕ)) × Reach (Move 0 Calls) (start []) t
    × (t.pc 1 ≡ returned two_elements)
copied_reached = (
  _,
  later
      (later
        (later
          (later
            (later
              (later
                (later
                  (later
                    (later
                      (later (later here (pick 0 (call_change refl))) (pick 0 (lock_change refl)))
                      (pick 0 move_data))
                    (pick 0 unlock_change))
                  (pick 1 call_copy))
                (pick 1 (lock_copy refl)))
              (pick 1 take_size))
            (pick 1 (next_element (omega arith))))
          (pick 1 (next_element (omega arith))))
        (pick 1 (all_copied refl)))
      (pick 1 unlock_copy),
  refl,
)

copies_whole_example : (two_elements ≡ []) ⊎ Calls two_elements
copies_whole_example = copies_whole 0 Calls [] copied_reached.1 1 two_elements copied_reached.2
