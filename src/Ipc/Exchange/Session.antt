-- ===== src/Ipc/Exchange/Session.antt =====
-- ipc/mmap_intro.cpp: the loops of the two processes as one function of the input, in the order
-- that the semaphores impose; its steps are steps of the two processes.
use native.Mathlib.Decide.{ℕ_discrete}
use hse_multithreading_examp.Prelude.{
  ℕ, ◌%◌, ◌^◌, ◌≡◌, ◌≢◌, refl, ap, if◌then◌else◌, ◌==◌, Option, none, some, List, [], ◌∷◌, ◌++◌,
  length, arith, eqb_ne,
}
use hse_multithreading_examp.Ipc.Text.{text, stored}
use hse_multithreading_examp.Ipc.Exchange.{
  buffer_size, SharedData, get_line, await, parent_exited, sleep, child_exited, Shown, State, state,
  end_of_input, post_last, wait_child, wait_write, stop, start, Reach, here, later,
}
use hse_multithreading_examp.Ipc.Exchange.Turns.{shown}
use hse_multithreading_examp.Ipc.Exchange.Blocked.{Reach-trans, message, round, last_round}

-- What the parent writes for a line.
unfoldable pub send : List ℕ → SharedData
send input = record { message_size = length input % 2 ^ 32; buffer = stored buffer_size input }

-- What the child prints of the memory, or `none` when it leaves its loop.
unfoldable pub receive : SharedData → Option Shown
receive m = if m.message_size == 0 then none else some (m.message_size, text m.buffer)

-- How the loops end, with what the child has printed: both processes exit, or the child does and
-- the parent waits for an answer to a line, with the lines `left` unread.
pub data Outcome : Type 0 where
  exited : (printed : List Shown) → Outcome
  blocked : (line : List ℕ) (left : List (List ℕ)) (printed : List Shown) → Outcome

unfoldable pub session : List (List ℕ) → List Shown → Outcome
session [] out = exited out
session (line ∷ lines) out = elim (receive (send line)) [
  | none ↦ blocked line lines out
  | some printed ↦ session lines (out ++ (printed ∷ []))
]

-- The state that an outcome stands for.
abbrev pub IsEnd : Outcome → State → Type 0
IsEnd (exited out) s = (m : SharedData) × (s ≡ state m 0 0 parent_exited child_exited out)
IsEnd (blocked line left out) s =
    (m : SharedData) × (s ≡ state m 0 0 (await line left) child_exited out)

receive-none : (line : List ℕ) → length line % 2 ^ 32 ≡ 0 → receive (send line) ≡ none
unfolding receive send
receive-none line e = ground arith

receive-some : (line : List ℕ) → length line % 2 ^ 32 ≢ 0 → receive (send line) ≡ some (shown line)
unfolding receive send
receive-some line ne = rw (eqb_ne (length line % 2 ^ 32) 0 ne)

session-nil : (out : List Shown) → session [] out ≡ exited out
unfolding session
session-nil out = refl

session-cons :
    (line : List ℕ) (lines : List (List ℕ)) (out : List Shown) (r : Option Shown)
    → receive (send line) ≡ r
    → session (line ∷ lines) out ≡ elim r as (λ _. Outcome) [
      | none ↦ blocked line lines out
      | some printed ↦ session lines (out ++ (printed ∷ []))
    ]
unfolding session
session-cons line lines out r e =
    ap
      (λ (o : Option Shown). elim o as (λ _. Outcome) [
        | none ↦ blocked line lines out
        | some printed ↦ session lines (out ++ (printed ∷ []))
      ])
      e

session_from :
    (m : SharedData) (lines : List (List ℕ)) (out : List Shown)
    → (t : State) × Reach (state m 0 0 (get_line lines) sleep out) t × IsEnd (session lines out) t
unfolding message
session_from m [] out = rw (session-nil out) (
  _,
  later
      (later (later (later (later here end_of_input) post_last) (wait_write (omega arith)))
        (stop refl))
      wait_child,
  (_, refl),
)
session_from m (line ∷ lines) out = elim (ℕ_discrete (length line % 2 ^ 32) 0) [
  | yes e ↦
      rw (session-cons line lines out none (receive-none line e))
        (_, last_round m line lines out e, (_, refl))
  | no ne ↦
      let (t, r, h) = session_from (message line) lines (out ++ (shown line ∷ [])) in
      rw (session-cons line lines out (some (shown line)) (receive-some line ne))
        (t, Reach-trans (round m line lines out ne) r, h)
]

-- For every input the two processes can run to the end that `session` computes.
pub session_runs :
    (lines : List (List ℕ)) → (t : State) × Reach (start lines) t × IsEnd (session lines []) t
session_runs lines = session_from _ lines []
