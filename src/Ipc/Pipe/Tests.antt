-- ===== src/Ipc/Pipe/Tests.antt =====
-- One line through a pipe, read in two parts.
use hse_multithreading_examp.Prelude.{ℕ, ◌≡◌, refl, arith, List, [], ◌∷◌}
use hse_multithreading_examp.Ipc.Pipe.{
  State, state, join, leave, PipeIntro, pipe_start, Reach, here, later, read_line, write_some,
  written, close_write, read_some, end_of_file,
}
use hse_multithreading_examp.Ipc.Pipe.Others.{pipe_intro}
use hse_multithreading_examp.Ipc.Pipe.Stream.{AllFit, reads, concat, pipes_deliver}

abbrev one_line : List (List ℕ)
one_line = (104 ∷ 105 ∷ []) ∷ []

abbrev ended : State
ended = state [] 0 join leave ((104 ∷ []) ∷ (105 ∷ []) ∷ [])

ended_reached : Reach PipeIntro (pipe_start one_line) ended
ended_reached =
    later
      (later
        (later
          (later
            (later
              (later
                (later (later (later here PipeIntro.parent_close) PipeIntro.child_close)
                  (PipeIntro.loop read_line))
                (PipeIntro.loop (write_some (104 ∷ 105 ∷ []) [] (omega arith))))
              (PipeIntro.loop (read_some (104 ∷ []) (105 ∷ []) (omega arith) (omega arith))))
            (PipeIntro.loop written))
          (PipeIntro.loop close_write))
        (PipeIntro.loop (read_some (105 ∷ []) [] (omega arith) (omega arith))))
      (PipeIntro.loop (end_of_file refl))

pipes_deliver_example : AllFit (reads ended) × (concat (reads ended) ≡ concat one_line)
pipes_deliver_example = pipes_deliver pipe_intro one_line ended ended_reached tt
