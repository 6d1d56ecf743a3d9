-- ===== src/Ipc/MessageQueue/Orphan.antt =====
-- What happens in ipc/mqueue.cpp when the child is late.
use hse_multithreading_examp.Prelude.{
  suc, ℕ, ◌+◌, ◌<◌, ◌≡◌, refl, ap, true, false, Option, List, [], ◌∷◌, ◌++◌, map, append-nil,
  append_assoc, length, length-append, arith,
}
use hse_multithreading_examp.Ipc.MessageQueue.{
  max_messages, Message, line_message, stop_message, get_line, join, child_start, receive, State,
  state, Step, parent_open, read_line, send, end_of_input, send_last, remove, child_open_late,
  start, Reach, here, later,
}

send_all :
    {s : State} (q : List Message) (lines : List (List ℕ)) (out : List (Option (List ℕ)))
    → length q + length lines < max_messages
    → Reach s (state true q (get_line lines) child_start out)
    → Reach s (state true (q ++ map line_message lines) (get_line []) child_start out)
send_all q [] out few r = rw (append-nil q) r
send_all q (line ∷ lines) out few r =
    rw⁻¹ (append_assoc q (line_message line ∷ []) (map line_message lines)) (
      send_all (q ++ (line_message line ∷ [])) lines out
        (omega (arith, length-append q (line_message line ∷ [])))
        (later (later r read_line) (send (omega arith))))

no_step :
    (q : List Message) (out : List (Option (List ℕ))) (u : State)
    → ¬ Step (state false q join (receive false) out) u
no_step q out u st = elim st [ ]

length-map : (lines : List (List ℕ)) → length (map line_message lines) ≡ length lines
length-map [] = refl
length-map (line ∷ lines) = ap suc (length-map lines)

-- With fewer than ten lines the parent can send everything and take the queue's name away before the
-- child opens it; then the child waits for ever at a queue of its own, and the parent for the child.
pub late_child_waits :
    (lines : List (List ℕ))
    → length lines < max_messages
    → (q : List Message) × Reach (start lines) (state false q join (receive false) [])
      × ((u : State) → ¬ Step (state false q join (receive false) []) u)
late_child_waits lines few = (
  map line_message lines ++ (stop_message ∷ []),
  later
      (later
        (later (later (send_all [] lines [] (omega arith) (later here parent_open)) end_of_input)
          (send_last (omega (arith, length-map lines))))
        remove)
      (child_open_late refl),
  (λ u. no_step _ [] u),
)
