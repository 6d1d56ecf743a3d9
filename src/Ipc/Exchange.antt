-- ===== src/Ipc/Exchange.antt =====
-- The loops of ipc/shm_intro.cpp and ipc/mmap_intro.cpp: a parent and a child that exchange lines
-- through shared memory, in turns given by two semaphores.
pub mod Turns
pub mod Blocked
pub mod Session
pub mod Names
mod Tests
use hse_multithreading_examp.Prelude.{
  ℕ, ◌+◌, ◌-◌, ◌%◌, ◌^◌, ◌≡◌, ◌≢◌, Option, none, List, [], ◌∷◌, ◌++◌, length, replicate,
}
use hse_multithreading_examp.Ipc.Text.{text, stored}

-- SharedData::BufferSize: a page less the size field.
abbrev pub buffer_size : ℕ
buffer_size = 4092

pub record SharedData : Type 0 where
  pub message_size : ℕ
  pub buffer : List ℕ

-- The parent, with its `input` and the lines that are still to come. It is in its loop up to
-- `sem_wait(readDoneSema)`, and behind it from `last_post` on.
pub data Parent : Type 0 where
  get_line : (rest : List (List ℕ)) → Parent
  fill : (input : List ℕ) (rest : List (List ℕ)) → Parent
  post : (input : List ℕ) (rest : List (List ℕ)) → Parent
  await : (input : List ℕ) (rest : List (List ℕ)) → Parent
  last_post : Parent
  join : Parent
  parent_exited : Parent

-- The child: at `sem_wait(writeDoneSema)`, at the test for 0, at the prints, at the post, behind
-- its loop; or killed when a print read beyond the mapping.
pub data Child : Type 0 where
  sleep : Child
  test : Child
  print : Child
  answer : Child
  child_exited : Child
  child_killed : Child

-- What the child prints of a message: its size and its content; `none` is what a print that reads
-- beyond the buffer and goes on makes of it, which is not known.
abbrev pub Shown : Type 0
Shown = ℕ × Option (List ℕ)

-- The memory, the values of writeDoneSema and readDoneSema, the two processes, and the child's
-- output so far.
pub data State : Type 0 where
  state :
      (shared : SharedData) (write_done read_done : ℕ) (parent : Parent) (child : Child)
      (printed : List Shown)
      → State

-- `m_messageSize` is a uint32_t. sem_wait goes on when the value is above 0, and takes 1 off.
pub data Step : State → State → Type 0 where
  read_line :
      {m : SharedData} {w r : ℕ} {line : List ℕ} {rest : List (List ℕ)} {c : Child}
      {out : List Shown}
      → Step
          (state m w r (get_line (line ∷ rest)) c out)
          (state (record m { message_size = length line % 2 ^ 32 }) w r (fill line rest) c out)
  write_buffer :
      {m : SharedData} {w r : ℕ} {line : List ℕ} {rest : List (List ℕ)} {c : Child}
      {out : List Shown}
      → Step
          (state m w r (fill line rest) c out)
          (state (record m { buffer = stored buffer_size line }) w r (post line rest) c out)
  post_write :
      {m : SharedData} {w r : ℕ} {line : List ℕ} {rest : List (List ℕ)} {c : Child}
      {out : List Shown}
      → Step (state m w r (post line rest) c out) (state m (w + 1) r (await line rest) c out)
  wait_read :
      {m : SharedData} {w r : ℕ} {line : List ℕ} {rest : List (List ℕ)} {c : Child}
      {out : List Shown}
      → r ≢ 0
      → Step (state m w r (await line rest) c out) (state m w (r - 1) (get_line rest) c out)
  end_of_input :
      {m : SharedData} {w r : ℕ} {c : Child} {out : List Shown}
      → Step
          (state m w r (get_line []) c out)
          (state (record m { message_size = 0 }) w r last_post c out)
  post_last :
      {m : SharedData} {w r : ℕ} {c : Child} {out : List Shown}
      → Step (state m w r last_post c out) (state m (w + 1) r join c out)
  wait_child :
      {m : SharedData} {w r : ℕ} {out : List Shown}
      → Step (state m w r join child_exited out) (state m w r parent_exited child_exited out)
  wait_killed :
      {m : SharedData} {w r : ℕ} {out : List Shown}
      → Step (state m w r join child_killed out) (state m w r parent_exited child_killed out)
  wait_write :
      {m : SharedData} {w r : ℕ} {p : Parent} {out : List Shown}
      → w ≢ 0
      → Step (state m w r p sleep out) (state m (w - 1) r p test out)
  stop :
      {m : SharedData} {w r : ℕ} {p : Parent} {out : List Shown}
      → m.message_size ≡ 0
      → Step (state m w r p test out) (state m w r p child_exited out)
  go_on :
      {m : SharedData} {w r : ℕ} {p : Parent} {out : List Shown}
      → m.message_size ≢ 0
      → Step (state m w r p test out) (state m w r p print out)
  show :
      {m : SharedData} {w r : ℕ} {p : Parent} {out : List Shown}
      → Step
          (state m w r p print out)
          (state m w r p answer (out ++ ((m.message_size, text m.buffer) ∷ [])))
  -- The buffer ends where the mapping does: a print that finds no zero in it may kill the child.
  show_beyond :
      {m : SharedData} {w r : ℕ} {p : Parent} {out : List Shown}
      → text m.buffer ≡ none
      → Step (state m w r p print out) (state m w r p child_killed out)
  post_read :
      {m : SharedData} {w r : ℕ} {p : Parent} {out : List Shown}
      → Step (state m w r p answer out) (state m w (r + 1) p sleep out)

-- After `fork`, with the memory cleared and semaphores that were not left over from another run.
abbrev pub start : List (List ℕ) → State
start lines =
    state (record { message_size = 0; buffer = replicate buffer_size 0 }) 0 0 (get_line lines) sleep
      []

pub data Reach (s : State) : State → Type 0 where
  here : Reach s s
  later : {t u : State} → Reach s t → Step t u → Reach s u
