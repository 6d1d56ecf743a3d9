-- ===== src/Ipc/Pipe.antt =====
-- ipc/pipe_intro.cpp: a parent that writes lines to a pipe and a child that reads and prints what
-- has come. The loops of ipc/dup.cpp and ipc/mkfifo_intro.cpp are the same; Pipe/Others has what
-- comes before them.
pub mod Others
pub mod Stream
mod Tests
use hse_multithreading_examp.Prelude.{ℕ, ◌+◌, ◌-◌, ◌<◌, ◌≤◌, ◌≡◌, ◌≢◌, List, [], ◌∷◌, ◌++◌, length}

-- The size of the child's buffer.
abbrev pub read_size : ℕ
read_size = 1024

-- The parent: before its loop, before getline, in `write` with the bytes still to go, at `wait`
-- after it closed its end, and after that.
pub data Parent : Type 0 where
  parent_setup : (lines : List (List ℕ)) → Parent
  get_line : (rest : List (List ℕ)) → Parent
  write : (bytes : List ℕ) (rest : List (List ℕ)) → Parent
  join : Parent
  parent_exited : Parent

-- The child: before its loop with calls still to make, at `read`, behind its loop, and gone.
pub data Child : Type 0 where
  child_setup : (calls : ℕ) → Child
  read : Child
  leave : Child
  child_exited : Child

-- The bytes in the pipe, the open descriptors of its write end in both processes, the processes,
-- and what each `read` of the child gave.
pub data State : Type 0 where
  state :
      (pipe : List ℕ) (writers : ℕ) (parent : Parent) (child : Child) (got : List (List ℕ)) → State

-- The loops. A `write` of a line puts its bytes in the pipe, some at a time as there is room; a
-- `read` takes at least one and at most `read_size` of those there are, and gives 0 when there are
-- none and nobody has the write end.
pub data Loop : State → State → Type 0 where
  read_line :
      {b : List ℕ} {w : ℕ} {line : List ℕ} {rest : List (List ℕ)} {c : Child} {got : List (List ℕ)}
      → Loop (state b w (get_line (line ∷ rest)) c got) (state b w (write line rest) c got)
  write_some :
      {b : List ℕ} {w : ℕ} {rest : List (List ℕ)} {c : Child} {got : List (List ℕ)}
      (part left : List ℕ)
      → 0 < length part
      → Loop
          (state b w (write (part ++ left) rest) c got)
          (state (b ++ part) w (write left rest) c got)
  written :
      {b : List ℕ} {w : ℕ} {rest : List (List ℕ)} {c : Child} {got : List (List ℕ)}
      → Loop (state b w (write [] rest) c got) (state b w (get_line rest) c got)
  close_write :
      {b : List ℕ} {w : ℕ} {c : Child} {got : List (List ℕ)}
      → Loop (state b w (get_line []) c got) (state b (w - 1) join c got)
  wait_child :
      {b : List ℕ} {w : ℕ} {got : List (List ℕ)}
      → Loop (state b w join child_exited got) (state b w parent_exited child_exited got)
  read_some :
      {w : ℕ} {p : Parent} {got : List (List ℕ)} (part left : List ℕ)
      → 0 < length part
      → length part ≤ read_size
      → Loop (state (part ++ left) w p read got) (state left w p read (got ++ (part ∷ [])))
  end_of_file :
      {w : ℕ} {p : Parent} {got : List (List ℕ)}
      → w ≡ 0
      → Loop (state [] w p read got) (state [] w p leave got)
  close_read :
      {b : List ℕ} {w : ℕ} {p : Parent} {got : List (List ℕ)}
      → Loop (state b w p leave got) (state b w p child_exited got)

-- After `pipe` and `fork` both processes have both ends. The parent closes its read end, the child
-- its write end.
pub data PipeIntro : State → State → Type 0 where
  loop : {s t : State} → Loop s t → PipeIntro s t
  parent_close :
      {b : List ℕ} {w : ℕ} {lines : List (List ℕ)} {c : Child} {got : List (List ℕ)}
      → PipeIntro (state b w (parent_setup lines) c got) (state b w (get_line lines) c got)
  child_close :
      {b : List ℕ} {w : ℕ} {p : Parent} {got : List (List ℕ)}
      → PipeIntro (state b w p (child_setup 1) got) (state b (w - 1) p read got)

abbrev pub pipe_start : List (List ℕ) → State
pipe_start lines = state [] 2 (parent_setup lines) (child_setup 1) []

pub data Reach (Step : State → State → Type 0) (s : State) : State → Type 0 where
  here : Reach Step s s
  later : {t u : State} → Reach Step s t → Step t u → Reach Step s u
