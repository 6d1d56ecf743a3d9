-- ===== src/Ipc/Exchange/Blocked.antt =====
-- What an empty line does to the exchange.
use hse_multithreading_examp.Ipc.Exchange.{
  replicate, buffer_size, SharedData, get_line, await, sleep, child_exited, Shown, State, state,
  Step, read_line, write_buffer, post_write, wait_read, wait_write, stop, go_on, show, post_read,
  start, Reach, here, later,
}
use hse_multithreading_examp.Prelude.{
  ℕ, ◌%◌, ◌^◌, ◌≡◌, ◌≢◌, refl, List, [], ◌∷◌, ◌++◌, map, append-nil, append_assoc, length, arith,
}
use hse_multithreading_examp.Ipc.Text.{stored}
use hse_multithreading_examp.Ipc.Exchange.Turns.{shown, AllSized, printed, HasExited}

pub Reach-trans : {s t u : State} → Reach s t → Reach t u → Reach s u
Reach-trans r here = r
Reach-trans r (later q st) = later (Reach-trans r q) st

unfoldable pub message : List ℕ → SharedData
message line = record { message_size = length line % 2 ^ 32; buffer = stored buffer_size line }

-- A line passes from the parent's getline to the child's next wait.
pub round :
    (m : SharedData) (line : List ℕ) (rest : List (List ℕ)) (out : List Shown)
    → length line % 2 ^ 32 ≢ 0
    → Reach
        (state m 0 0 (get_line (line ∷ rest)) sleep out)
        (state (message line) 0 0 (get_line rest) sleep (out ++ (shown line ∷ [])))
unfolding message
round m line rest out nz =
    later
      (later
        (later
          (later
            (later (later (later (later here read_line) write_buffer) post_write)
              (wait_write (omega arith)))
            (go_on nz))
          show)
        post_read)
      (wait_read (omega arith))

rounds :
    (m : SharedData) (lines rest : List (List ℕ)) (out : List Shown)
    → AllSized lines
    → (m' : SharedData) × Reach
        (state m 0 0 (get_line (lines ++ rest)) sleep out)
        (state m' 0 0 (get_line rest) sleep (out ++ map shown lines))
rounds m [] rest out a = (m, rw (append-nil out) here)
rounds m (line ∷ lines) rest out (nz, a) =
    let (m', r) = rounds (message line) lines rest (out ++ (shown line ∷ [])) a in
    (
      m',
      rw⁻¹ (append_assoc out (shown line ∷ []) (map shown lines))
          (Reach-trans (round m line (lines ++ rest) out nz) r),
    )

-- The child's last round.
pub last_round :
    (m : SharedData) (line : List ℕ) (rest : List (List ℕ)) (out : List Shown)
    → length line % 2 ^ 32 ≡ 0
    → Reach
        (state m 0 0 (get_line (line ∷ rest)) sleep out)
        (state (message line) 0 0 (await line rest) child_exited out)
unfolding message
last_round m line rest out z =
    later
      (later (later (later (later here read_line) write_buffer) post_write)
        (wait_write (omega arith)))
      (stop z)

no_step :
    (m : SharedData) (line : List ℕ) (rest : List (List ℕ)) (out : List Shown) (u : State)
    → ¬ Step (state m 0 0 (await line rest) child_exited out) u
no_step m line rest out u (wait_read nz) = nz refl

-- With a line whose size is 0 as a uint32_t, an empty one for example, there is a reachable state
-- in which no process can take a step, the parent still waits for an answer, and the child has
-- printed no more than the lines before it.
pub empty_line_blocks :
    (before : List (List ℕ)) (line : List ℕ) (after : List (List ℕ))
    → AllSized before
    → length line % 2 ^ 32 ≡ 0
    → (t : State) × Reach (start (before ++ (line ∷ after))) t
      × ((u : State) → ¬ Step t u)
      × ¬ HasExited t
      × (printed t ≡ map shown before)
empty_line_blocks before line after a z =
    let (m, r) =
      rounds (record { message_size = 0; buffer = replicate buffer_size 0 }) before (line ∷ after)
        [] a in
    (
      state (message line) 0 0 (await line after) child_exited (map shown before),
      Reach-trans r (last_round m line after (map shown before) z),
      no_step (message line) line after (map shown before),
      (λ h. cc),
      refl,
    )
