-- ===== src/Ipc/Exchange/Tests.antt =====
-- Two lines, and an empty one, through the exchange.
use hse_multithreading_examp.Ipc.Exchange.{
  wait_child, stop, post_last, end_of_input, wait_read, post_read, show, go_on, wait_write,
  post_write, buffer_size, write_buffer, State, state, Step, parent_exited, child_exited, start,
  Reach, here, later, read_line,
}
use hse_multithreading_examp.Prelude.{ℕ, ◌≡◌, ◌⊎◌, refl, arith, some, List, [], ◌∷◌, ◌++◌, map}
use hse_multithreading_examp.Ipc.Text.{stored}
use hse_multithreading_examp.Ipc.Exchange.Turns.{
  AllSized, AllFit, HasExited, printed, shown, exchange_goes_on, exchange_prints,
}
use hse_multithreading_examp.Ipc.Exchange.Blocked.{empty_line_blocks}
use hse_multithreading_examp.Ipc.Exchange.Session.{session, IsEnd, session_runs}

-- "hi" and "yo".
abbrev two_lines : List (List ℕ)
two_lines = (104 ∷ 105 ∷ []) ∷ (121 ∷ 111 ∷ []) ∷ []

two_sized : AllSized two_lines
two_sized = (omega arith, (omega arith, tt))

two_fit : AllFit two_lines
two_fit = (
  (omega arith, omega arith, (omega arith, (omega arith, tt))),
  ((omega arith, omega arith, (omega arith, (omega arith, tt))), tt),
)

exchange_goes_on_example : HasExited (start two_lines) ⊎ ((t : State) × Step (start two_lines) t)
exchange_goes_on_example = exchange_goes_on two_lines two_fit here

-- A whole run on one line.
abbrev one_line : List (List ℕ)
one_line = (104 ∷ 105 ∷ []) ∷ []

abbrev ended : State
ended =
    state (record { message_size = 0; buffer = stored buffer_size (104 ∷ 105 ∷ []) }) 0 0
      parent_exited child_exited (shown (104 ∷ 105 ∷ []) ∷ [])

ended_reached : Reach (start one_line) ended
ended_reached =
    later
      (later
        (later
          (later
            (later
              (later
                (later
                  (later
                    (later
                      (later (later (later (later here read_line) write_buffer) post_write)
                        (wait_write (omega arith)))
                      (go_on (omega arith)))
                    show)
                  post_read)
                (wait_read (omega arith)))
              end_of_input)
            post_last)
          (wait_write (omega arith)))
        (stop refl))
      wait_child

exchange_prints_example : shown (104 ∷ 105 ∷ []) ∷ [] ≡ (2, some (104 ∷ 105 ∷ [])) ∷ []
exchange_prints_example =
    exchange_prints one_line ((omega arith, omega arith, (omega arith, (omega arith, tt))), tt)
      ended_reached

empty_line_blocks_example :
    (t : State) × Reach (start (two_lines ++ ([] ∷ two_lines))) t
    × ((u : State) → ¬ Step t u)
    × ¬ HasExited t
    × (printed t ≡ map shown two_lines)
empty_line_blocks_example = empty_line_blocks two_lines [] two_lines two_sized refl

session_runs_example : (t : State) × Reach (start two_lines) t × IsEnd (session two_lines []) t
session_runs_example = session_runs two_lines
