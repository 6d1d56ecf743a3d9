-- ===== src/Ipc/Pipe/Others.antt =====
-- What comes before the loops of ipc/dup.cpp and ipc/mkfifo_intro.cpp.
use hse_multithreading_examp.Prelude.{ℕ, ◌-◌, List, []}
use hse_multithreading_examp.Ipc.Pipe.{
  Parent, parent_setup, get_line, Child, child_setup, read, State, state, Loop, PipeIntro,
  pipe_start, Reach,
}

-- ipc/dup.cpp: the child also makes its standard input a second descriptor of the read end, and
-- reads from that.
pub data Dup : State → State → Type 0 where
  loop : {s t : State} → Loop s t → Dup s t
  parent_close :
      {b : List ℕ} {w : ℕ} {lines : List (List ℕ)} {c : Child} {got : List (List ℕ)}
      → Dup (state b w (parent_setup lines) c got) (state b w (get_line lines) c got)
  child_close :
      {b : List ℕ} {w : ℕ} {p : Parent} {got : List (List ℕ)}
      → Dup (state b w p (child_setup 2) got) (state b (w - 1) p (child_setup 0) got)
  child_dup :
      {b : List ℕ} {w : ℕ} {p : Parent} {got : List (List ℕ)}
      → Dup (state b w p (child_setup 0) got) (state b w p read got)

abbrev pub dup_start : List (List ℕ) → State
dup_start lines = state [] 2 (parent_setup lines) (child_setup 2) []

-- ipc/mkfifo_intro.cpp: each process opens one end, and `open` waits for the other's.
pub data Fifo : State → State → Type 0 where
  loop : {s t : State} → Loop s t → Fifo s t
  open_both :
      {lines : List (List ℕ)}
      → Fifo
          (state [] 0 (parent_setup lines) (child_setup 1) [])
          (state [] 1 (get_line lines) read [])

abbrev pub fifo_start : List (List ℕ) → State
fifo_start lines = state [] 0 (parent_setup lines) (child_setup 1) []

pub data Program : Type 0 where
  pipe_intro dup mkfifo_intro : Program

-- The states that a program can reach on some lines of input.
abbrev pub Runs : Program → List (List ℕ) → State → Type 0
Runs pipe_intro lines s = Reach PipeIntro (pipe_start lines) s
Runs dup lines s = Reach Dup (dup_start lines) s
Runs mkfifo_intro lines s = Reach Fifo (fifo_start lines) s
