-- ===== src/Ipc/MessageQueue/Tests.antt =====
-- One line through the message queue, and the late child.
use hse_multithreading_examp.Prelude.{ℕ, ◌≡◌, refl, arith, false, List, [], ◌∷◌, some}
use hse_multithreading_examp.Ipc.MessageQueue.{
  Message, stop_message, line_message, State, state, Step, parent_exited, child_exited, join,
  receive, start, Reach, here, later, parent_open, child_open, read_line, send, end_of_input,
  send_last, get, print, stop, remove, wait_child,
}
use hse_multithreading_examp.Ipc.MessageQueue.Delivery.{shown, queue_delivers}
use hse_multithreading_examp.Ipc.MessageQueue.Orphan.{late_child_waits}

abbrev one_line : List (List ℕ)
one_line = (104 ∷ 105 ∷ []) ∷ []

ended_reached :
    Reach (start one_line) (state false [] parent_exited child_exited (shown (104 ∷ 105 ∷ []) ∷ []))
unfolding line_message stop_message
ended_reached =
    later
      (later
        (later
          (later
            (later
              (later
                (later
                  (later
                    (later (later (later (later here parent_open) (child_open refl)) read_line)
                      (send (omega arith)))
                    get)
                  (print refl))
                end_of_input)
              (send_last (omega arith)))
            remove)
          get)
        (stop refl))
      wait_child

queue_delivers_example : shown (104 ∷ 105 ∷ []) ∷ [] ≡ some (104 ∷ 105 ∷ []) ∷ []
queue_delivers_example =
    queue_delivers one_line ((omega arith, (omega arith, (omega arith, tt))), tt) ended_reached

late_child_waits_example :
    (q : List Message) × Reach (start one_line) (state false q join (receive false) [])
    × ((u : State) → ¬ Step (state false q join (receive false) []) u)
late_child_waits_example = late_child_waits one_line (omega arith)
