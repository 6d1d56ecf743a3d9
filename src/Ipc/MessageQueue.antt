-- ===== src/Ipc/MessageQueue.antt =====
-- ipc/mqueue.cpp: a parent that sends lines to a child through a POSIX message queue.
pub mod Delivery
pub mod Orphan
mod Tests
use hse_multithreading_examp.Prelude.{
  ℕ, ◌+◌, ◌<◌, ◌≡◌, ◌≢◌, Bool, true, false, Option, none, some, List, [], ◌∷◌, ◌++◌, length,
  replicate,
}
use hse_multithreading_examp.Ipc.Text.{text, stored}

-- Message::BufferSize, and `mq_maxmsg` of the attributes.
abbrev pub data_size : ℕ
data_size = 1024

abbrev pub max_messages : ℕ
max_messages = 10

pub record Message : Type 0 where
  pub is_stop : Bool
  pub bytes : List ℕ

-- What `main` sends for a line, and behind its loop.
unfoldable pub line_message : List ℕ → Message
line_message input = record { is_stop = false; bytes = stored data_size input }

unfoldable pub stop_message : Message
stop_message = record { is_stop = true; bytes = replicate data_size 0 }

-- The parent: before mq_open, before getline, before the mq_send of a line, of the stop, before
-- mq_close and mq_unlink, before `wait`, and after it.
pub data Parent : Type 0 where
  parent_start : (lines : List (List ℕ)) → Parent
  get_line : (rest : List (List ℕ)) → Parent
  send_line : (input : List ℕ) (rest : List (List ℕ)) → Parent
  send_stop : Parent
  unlink : Parent
  join : Parent
  parent_exited : Parent

-- The child: before mq_open, before mq_receive, with a message, behind its loop, or killed when a print
-- read beyond the buffer. `is_shared` says whether its descriptor stands for the parent's queue or for
-- one of its own that has no other user.
pub data Child : Type 0 where
  child_start : Child
  receive : (is_shared : Bool) → Child
  test : (is_shared : Bool) (message : Message) → Child
  child_exited : Child
  child_killed : Child

-- The queue that the parent uses: whether it was opened, its messages in order of arrival, whether
-- the name still leads to it; the two processes; what the child has printed, with `none` for a print
-- that read beyond the buffer, of which nothing is known.
pub data State : Type 0 where
  state :
      (named : Bool) (messages : List Message) (parent : Parent) (child : Child)
      (printed : List (Option (List ℕ)))
      → State

-- mq_open with O_CREAT opens the queue of that name, or makes an empty one. mq_send waits while the
-- queue is full, mq_receive while it is empty. mq_unlink takes the name away; who has opened the
-- queue may go on using it.
pub data Step : State → State → Type 0 where
  parent_open :
      {b : Bool} {q : List Message} {lines : List (List ℕ)} {c : Child}
      {out : List (Option (List ℕ))}
      → Step (state b q (parent_start lines) c out) (state true q (get_line lines) c out)
  read_line :
      {b : Bool} {q : List Message} {line : List ℕ} {rest : List (List ℕ)} {c : Child}
      {out : List (Option (List ℕ))}
      → Step (state b q (get_line (line ∷ rest)) c out) (state b q (send_line line rest) c out)
  send :
      {b : Bool} {q : List Message} {line : List ℕ} {rest : List (List ℕ)} {c : Child}
      {out : List (Option (List ℕ))}
      → length q < max_messages
      → Step
          (state b q (send_line line rest) c out)
          (state b (q ++ (line_message line ∷ [])) (get_line rest) c out)
  end_of_input :
      {b : Bool} {q : List Message} {c : Child} {out : List (Option (List ℕ))}
      → Step (state b q (get_line []) c out) (state b q send_stop c out)
  send_last :
      {b : Bool} {q : List Message} {c : Child} {out : List (Option (List ℕ))}
      → length q < max_messages
      → Step (state b q send_stop c out) (state b (q ++ (stop_message ∷ [])) unlink c out)
  remove :
      {b : Bool} {q : List Message} {c : Child} {out : List (Option (List ℕ))}
      → Step (state b q unlink c out) (state false q join c out)
  wait_child :
      {b : Bool} {q : List Message} {out : List (Option (List ℕ))}
      → Step (state b q join child_exited out) (state b q parent_exited child_exited out)
  wait_killed :
      {b : Bool} {q : List Message} {out : List (Option (List ℕ))}
      → Step (state b q join child_killed out) (state b q parent_exited child_killed out)
  -- Before the parent's mq_open the child makes the queue that the parent then opens.
  child_open_first :
      {b : Bool} {q : List Message} {lines : List (List ℕ)} {out : List (Option (List ℕ))}
      → Step
          (state b q (parent_start lines) child_start out)
          (state true q (parent_start lines) (receive true) out)
  child_open :
      {b : Bool} {q : List Message} {p : Parent} {out : List (Option (List ℕ))}
      → b ≡ true
      → Step (state b q p child_start out) (state b q p (receive true) out)
  -- The name is gone: an empty queue that nobody sends to.
  child_open_late :
      {b : Bool} {q : List Message} {out : List (Option (List ℕ))}
      → b ≡ false
      → Step (state b q join child_start out) (state b q join (receive false) out)
  get :
      {b : Bool} {q : List Message} {m : Message} {p : Parent} {out : List (Option (List ℕ))}
      → Step (state b (m ∷ q) p (receive true) out) (state b q p (test true m) out)
  stop :
      {b : Bool} {q : List Message} {m : Message} {p : Parent} {shared : Bool}
      {out : List (Option (List ℕ))}
      → m.is_stop ≡ true
      → Step (state b q p (test shared m) out) (state b q p child_exited out)
  print :
      {b : Bool} {q : List Message} {m : Message} {p : Parent} {shared : Bool}
      {out : List (Option (List ℕ))}
      → m.is_stop ≡ false
      → Step
          (state b q p (test shared m) out)
          (state b q p (receive shared) (out ++ (text m.bytes ∷ [])))
  -- A print that finds no zero in the buffer reads what is behind it, and may kill the child.
  print_beyond :
      {b : Bool} {q : List Message} {m : Message} {p : Parent} {shared : Bool}
      {out : List (Option (List ℕ))}
      → m.is_stop ≡ false
      → text m.bytes ≡ none
      → Step (state b q p (test shared m) out) (state b q p child_killed out)

-- After `mq_unlink` and `fork`.
abbrev pub start : List (List ℕ) → State
start lines = state false [] (parent_start lines) child_start []

pub data Reach (s : State) : State → Type 0 where
  here : Reach s s
  later : {t u : State} → Reach s t → Step t u → Reach s u
