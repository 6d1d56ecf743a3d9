-- ===== src/Ipc/Exchange/Turns.antt =====
-- What the exchange promises for lines that are not empty and fit into the buffer with a zero behind
-- them.
use hse_multithreading_examp.Prelude.{
  ℕ, ◌<◌, ◌%◌, ◌^◌, ◌≡◌, none, some, ap, ◌≢◌, ◌⊎◌, inl, inr, refl, sym, ◌∙◌, List, [], ◌∷◌, ◌++◌,
  map, append-nil, append_assoc, length, arith,
}
use hse_multithreading_examp.Ipc.Text.{text, stored, NoZero, text-stored}
use hse_multithreading_examp.Ipc.Exchange.{
  buffer_size, SharedData, get_line, fill, post, await, last_post, join, parent_exited, sleep, test,
  print, answer, child_exited, Shown, State, state, Step, read_line, write_buffer, post_write,
  wait_read, end_of_input, post_last, wait_child, wait_killed, wait_write, stop, go_on, show,
  show_beyond, post_read, start, Reach, here, later,
}

-- What the child is to print of a line.
abbrev pub shown : List ℕ → Shown
shown line = (length line % 2 ^ 32, text (stored buffer_size line))

-- A message with this size does not stop the child.
abbrev pub AllSized : List (List ℕ) → Type 0
AllSized [] = Unit
AllSized (line ∷ lines) = (length line % 2 ^ 32 ≢ 0) × AllSized lines

-- A line that is not empty, shorter than the buffer, and without a zero byte.
abbrev pub Fits : List ℕ → Type 0
Fits line = (length line ≢ 0) × (length line < buffer_size) × NoZero line

abbrev pub AllFit : List (List ℕ) → Type 0
AllFit [] = Unit
AllFit (line ∷ lines) = Fits line × AllFit lines

Fits-sized : (line : List ℕ) → Fits line → length line % 2 ^ 32 ≢ 0
Fits-sized line (some_bytes, short, plain) = omega arith

-- The child's print of it stays within the buffer.
Fits-text : (line : List ℕ) → Fits line → text (stored buffer_size line) ≢ none
Fits-text line (some_bytes, short, plain) e = let h = text-stored buffer_size line plain short in cc

-- What is printed together with what is still to be printed.
abbrev Pending : List (List ℕ) → List Shown → List (List ℕ) → Type 0
Pending lines out rest = out ++ map shown rest ≡ map shown lines

abbrev IsMessage : SharedData → List ℕ → Type 0
IsMessage m line = (m.message_size ≡ length line % 2 ^ 32) × (m.buffer ≡ stored buffer_size line)

-- Where the two processes can stand together, and what the semaphores and the memory are then.
abbrev Turn : List (List ℕ) → State → Type 0
Turn lines (state m w r (get_line rest) sleep out) =
    (w ≡ 0) × (r ≡ 0) × AllFit rest × Pending lines out rest
Turn lines (state m w r (fill line rest) sleep out) =
    (w ≡ 0)
    × (r ≡ 0)
    × (m.message_size ≡ length line % 2 ^ 32)
    × AllFit (line ∷ rest)
    × Pending lines out (line ∷ rest)
Turn lines (state m w r (post line rest) sleep out) =
    (w ≡ 0) × (r ≡ 0) × IsMessage m line × AllFit (line ∷ rest) × Pending lines out (line ∷ rest)
Turn lines (state m w r (await line rest) sleep out) =
    ((w ≡ 1) × (r ≡ 0) × IsMessage m line × AllFit (line ∷ rest) × Pending lines out (line ∷ rest))
    ⊎ ((w ≡ 0) × (r ≡ 1) × AllFit rest × Pending lines out rest)
Turn lines (state m w r (await line rest) test out) =
    (w ≡ 0) × (r ≡ 0) × IsMessage m line × AllFit (line ∷ rest) × Pending lines out (line ∷ rest)
Turn lines (state m w r (await line rest) print out) =
    (w ≡ 0) × (r ≡ 0) × IsMessage m line × AllFit (line ∷ rest) × Pending lines out (line ∷ rest)
Turn lines (state m w r (await line rest) answer out) =
    (w ≡ 0) × (r ≡ 0) × AllFit rest × Pending lines out rest
Turn lines (state m w r last_post sleep out) =
    (w ≡ 0) × (r ≡ 0) × (m.message_size ≡ 0) × Pending lines out []
Turn lines (state m w r join sleep out) =
    (w ≡ 1) × (r ≡ 0) × (m.message_size ≡ 0) × Pending lines out []
Turn lines (state m w r join test out) =
    (w ≡ 0) × (r ≡ 0) × (m.message_size ≡ 0) × Pending lines out []
Turn lines (state m w r join child_exited out) = Pending lines out []
Turn lines (state m w r parent_exited child_exited out) = Pending lines out []
Turn lines _ = ⊥

print_Pending :
    (lines : List (List ℕ)) (out : List Shown) (line : List ℕ) (rest : List (List ℕ))
    → Pending lines out (line ∷ rest)
    → Pending lines (out ++ (shown line ∷ [])) rest
print_Pending lines out line rest h = append_assoc out (shown line ∷ []) (map shown rest) ∙ h

keep : (lines : List (List ℕ)) {s t : State} → Step s t → Turn lines s → Turn lines t
keep lines (read_line {c = sleep}) (w, r, (z, a), p) = (w, r, refl, (z, a), p)
keep lines (write_buffer {c = sleep}) (w, r, e, a, p) = (w, r, (e, refl), a, p)
keep lines (post_write {c = sleep}) (w, r, m, a, p) = inl (omega arith, r, m, a, p)
keep lines (wait_read {c = sleep} nz) (inl (w, r, m, a, p)) = absurd (nz r)
keep lines (wait_read {c = sleep} nz) (inr (w, r, a, p)) = (w, omega arith, a, p)
keep lines (end_of_input {c = sleep}) (w, r, a, p) = (w, r, refl, p)
keep lines (post_last {c = sleep}) (w, r, e, p) = (omega arith, r, e, p)
keep lines wait_child p = p
keep lines (wait_write {p = await line rest} nz) (inl (w, r, m, a, p)) = (omega arith, r, m, a, p)
keep lines (wait_write {p = await line rest} nz) (inr (w, r, a, p)) = absurd (nz w)
keep lines (wait_write {p = join} nz) (w, r, e, p) = (omega arith, r, e, p)
keep lines (wait_write {p = get_line rest} nz) t = absurd (nz t.0)
keep lines (wait_write {p = fill line rest} nz) t = absurd (nz t.0)
keep lines (wait_write {p = post line rest} nz) t = absurd (nz t.0)
keep lines (wait_write {p = last_post} nz) t = absurd (nz t.0)
keep lines (stop {p = await line rest} z) (w, r, m, (f, a), p) =
    absurd (Fits-sized line f (sym m.0 ∙ z))
keep lines (stop {p = join} z) (w, r, e, p) = p
keep lines (go_on {p = await line rest} nz) t = t
keep lines (go_on {p = join} nz) (w, r, e, p) = absurd (nz e)
keep lines (show {m = m} {p = await line rest} {out = out}) (w, r, (s, b), (f, a), p) =
    (w, r, a, rw (s, b) (print_Pending lines out line rest p))
keep lines (show_beyond {p = await line rest} e) (w, r, (s, b), (f, a), p) =
    absurd (Fits-text line f (sym (ap text b) ∙ e))
keep lines wait_killed t = absurd t
keep lines (post_read {p = await line rest}) (w, r, a, p) = inr (w, omega arith, a, p)
keep lines (wait_read {c = test} nz) t = absurd (nz t.1)
keep lines (wait_read {c = print} nz) t = absurd (nz t.1)
keep lines (wait_read {c = answer} nz) t = absurd (nz t.1)
keep lines _ t = absurd t

reached :
    (lines : List (List ℕ)) → AllFit lines → {s : State} → Reach (start lines) s → Turn lines s
reached lines a here = (refl, refl, a, refl)
reached lines a (later r st) = keep lines st (reached lines a r)

-- Whether both processes have left `main`.
abbrev pub HasExited : State → Type 0
HasExited (state m w r p c out) = (p ≡ parent_exited) × (c ≡ child_exited)

abbrev pub printed : State → List Shown
printed (state m w r p c out) = out

moves : (lines : List (List ℕ)) (s : State) → Turn lines s → HasExited s ⊎ ((t : State) × Step s t)
moves lines (state m w r (get_line []) sleep out) t = inr (_, end_of_input)
moves lines (state m w r (get_line (line ∷ rest)) sleep out) t = inr (_, read_line)
moves lines (state m w r (fill line rest) sleep out) t = inr (_, write_buffer)
moves lines (state m w r (post line rest) sleep out) t = inr (_, post_write)
moves lines (state m w r (await line rest) sleep out) (inl t) =
    inr (_, wait_write (let e = t.0 in omega arith))
moves lines (state m w r (await line rest) sleep out) (inr t) =
    inr (_, wait_read (let e = t.1 in omega arith))
moves lines (state m w r (await line rest) test out) (e, f, (s, b), (fits, a), p) =
    inr (_, go_on (λ z. Fits-sized line fits (sym s ∙ z)))
moves lines (state m w r (await line rest) print out) t = inr (_, show)
moves lines (state m w r (await line rest) answer out) t = inr (_, post_read)
moves lines (state m w r last_post sleep out) t = inr (_, post_last)
moves lines (state m w r join sleep out) t = inr (_, wait_write (let e = t.0 in omega arith))
moves lines (state m w r join test out) (e, f, z, p) = inr (_, stop z)
moves lines (state m w r join child_exited out) t = inr (_, wait_child)
moves lines (state m w r parent_exited child_exited out) t = inl (refl, refl)
moves lines _ t = absurd t

-- What the child is to print of a line that fits: its length, and the line.
abbrev pub whole_line : List ℕ → Shown
whole_line line = (length line, some line)

shown_whole : (lines : List (List ℕ)) → AllFit lines → map shown lines ≡ map whole_line lines
shown_whole [] a = refl
shown_whole (line ∷ lines) ((some_bytes, short, plain), a) =
    let size : length line % 2 ^ 32 ≡ length line = omega arith in
    rw (size, text-stored buffer_size line plain short, shown_whole lines a)

-- For lines that are not empty, have fewer than 4092 bytes and no zero byte: in every reachable state
-- both processes have exited or one of them can take a step.
pub exchange_goes_on :
    (lines : List (List ℕ))
    → AllFit lines
    → {s : State} → Reach (start lines) s
    → HasExited s ⊎ ((t : State) × Step s t)
exchange_goes_on lines a {s} r = moves lines s (reached lines a r)

-- Under the same condition, when both processes have exited the child has printed the length and the
-- bytes of every line, once and in order.
pub exchange_prints :
    (lines : List (List ℕ))
    → AllFit lines
    → {m : SharedData} {w r : ℕ} {out : List Shown}
    → Reach (start lines) (state m w r parent_exited child_exited out)
    → out ≡ map whole_line lines
exchange_prints lines a {out = out} r =
    sym (append-nil out) ∙ reached lines a r ∙ shown_whole lines a
