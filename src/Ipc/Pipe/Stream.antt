-- ===== src/Ipc/Pipe/Stream.antt =====
-- The bytes that the child reads are the bytes of the lines.
use hse_multithreading_examp.Prelude.{
  zero, suc, suc, ℕ, ◌+◌, ◌<◌, ◌≤◌, ◌≡◌, ◌≢◌, refl, ap, sym, ◌∙◌, List, [], ◌∷◌, ◌++◌, append-nil,
  append_assoc, length, arith,
}
use hse_multithreading_examp.Ipc.Pipe.{
  read_size, Parent, parent_setup, get_line, write, join, parent_exited, Child, child_setup, read,
  leave, child_exited, State, state, Loop, read_line, write_some, written, close_write, wait_child,
  read_some, end_of_file, close_read, PipeIntro, pipe_start, Reach, here, later,
}
use hse_multithreading_examp.Ipc.Pipe.Others.{
  Program, pipe_intro, dup, mkfifo_intro, Runs, Dup, dup_start, Fifo, fifo_start, open_both,
}

abbrev pub concat : List (List ℕ) → List ℕ
concat [] = []
concat (x ∷ xs) = x ++ concat xs

concat-append : (xs ys : List (List ℕ)) → concat (xs ++ ys) ≡ concat xs ++ concat ys
concat-append [] ys = refl
concat-append (x ∷ xs) ys = rw (concat-append xs ys, append_assoc x (concat xs) (concat ys))

-- Every read gave some bytes, and no more than the buffer holds.
abbrev pub AllFit : List (List ℕ) → Type 0
AllFit [] = Unit
AllFit (x ∷ xs) = (0 < length x) × (length x ≤ read_size) × AllFit xs

AllFit-append :
    (xs : List (List ℕ)) (x : List ℕ)
    → AllFit xs
    → 0 < length x
    → length x ≤ read_size
    → AllFit (xs ++ (x ∷ []))
AllFit-append [] x h a b = (a, b, tt)
AllFit-append (y ∷ ys) x h a b = (h.0, h.1, AllFit-append ys x h.2 a b)

-- The bytes that the parent has still to write.
abbrev to_write : Parent → List ℕ
to_write (parent_setup lines) = concat lines
to_write (get_line rest) = concat rest
to_write (write bytes rest) = bytes ++ concat rest
to_write join = []
to_write parent_exited = []

-- The descriptors of the write end that a process has, in the loops and, `set` of them, before.
abbrev parent_has : ℕ → Parent → ℕ
parent_has set (parent_setup lines) = set
parent_has set (get_line rest) = 1
parent_has set (write bytes rest) = 1
parent_has set join = 0
parent_has set parent_exited = 0

abbrev child_has : ℕ → Child → ℕ
child_has set (child_setup zero) = 0
child_has set (child_setup (suc calls)) = set
child_has set read = 0
child_has set leave = 0
child_has set child_exited = 0

abbrev HasSetUp : ℕ → Parent → Child → Type 0
HasSetUp set (parent_setup lines) (child_setup calls) = Unit
HasSetUp set (parent_setup lines) c = set ≡ 1
HasSetUp set p c = Unit

-- Nothing is left when the child has seen the end.
abbrev HasAll : List ℕ → Parent → Child → Type 0
HasAll b p leave = (b ≡ []) × (to_write p ≡ [])
HasAll b p child_exited = (b ≡ []) × (to_write p ≡ [])
HasAll b p _ = Unit

abbrev pub Inv : ℕ → List (List ℕ) → State → Type 0
Inv set lines (state b w p c got) =
    (concat got ++ (b ++ to_write p) ≡ concat lines)
    × (w ≡ parent_has set p + child_has set c)
    × AllFit got
    × HasSetUp set p c
    × HasAll b p c

nothing_left : (set : ℕ) (p : Parent) → HasSetUp set p read → parent_has set p ≡ 0 → to_write p ≡ []
nothing_left set (parent_setup lines) h e = absurd (omega arith)
nothing_left set (get_line rest) h e = absurd (omega arith)
nothing_left set (write bytes rest) h e = absurd (omega arith)
nothing_left set join h e = refl
nothing_left set parent_exited h e = refl

set_up_leave : (set : ℕ) (p : Parent) → HasSetUp set p read → HasSetUp set p leave
set_up_leave set (parent_setup lines) h = h
set_up_leave set (get_line rest) h = h
set_up_leave set (write bytes rest) h = h
set_up_leave set join h = h
set_up_leave set parent_exited h = h

set_up_exited : (set : ℕ) (p : Parent) → HasSetUp set p leave → HasSetUp set p child_exited
set_up_exited set (parent_setup lines) h = h
set_up_exited set (get_line rest) h = h
set_up_exited set (write bytes rest) h = h
set_up_exited set join h = h
set_up_exited set parent_exited h = h

-- With the descriptors of `fork` a process may start before the other has set up.
set_up_one : (p : Parent) → HasSetUp 1 p read
set_up_one (parent_setup lines) = refl
set_up_one (get_line rest) = tt
set_up_one (write bytes rest) = tt
set_up_one join = tt
set_up_one parent_exited = tt

set_up_calls : (p : Parent) → HasSetUp 1 p (child_setup 0)
set_up_calls (parent_setup lines) = tt
set_up_calls (get_line rest) = tt
set_up_calls (write bytes rest) = tt
set_up_calls join = tt
set_up_calls parent_exited = tt

HasAll-same :
    (b b' : List ℕ) (p p' : Parent) (c : Child)
    → (b ≡ [] → to_write p ≡ [] → (b' ≡ []) × (to_write p' ≡ []))
    → HasAll b p c
    → HasAll b' p' c
HasAll-same b b' p p' (child_setup calls) f h = tt
HasAll-same b b' p p' read f h = tt
HasAll-same b b' p p' leave f h = f h.0 h.1
HasAll-same b b' p p' child_exited f h = f h.0 h.1

not_nil : (part left rest : List ℕ) → 0 < length part → (part ++ left) ++ rest ≢ []
not_nil [] left rest lt e = omega arith
not_nil (x ∷ part) left rest lt e = absurd (omega (arith, ap length e))

-- The loops keep the stream, and count the write ends.
pub keep :
    (set : ℕ) (lines : List (List ℕ)) {s t : State} → Loop s t → Inv set lines s → Inv set lines t
keep set lines (read_line {b = b} {line = line} {rest = rest} {c = c}) (e, w, a, s, h) =
    (e, w, a, tt, HasAll-same b b (get_line (line ∷ rest)) (write line rest) c (λ x y. (x, y)) h)
keep set lines (write_some {b = b} {rest = rest} {c = c} {got = got} part left lt) (e, w, a, s, h) =
    (
      ap (λ x. concat got ++ x)
            (append_assoc b part (left ++ concat rest)
              ∙ ap (λ x. b ++ x) (sym (append_assoc part left (concat rest))))
          ∙ e,
      w,
      a,
      tt,
      HasAll-same b (b ++ part) (write (part ++ left) rest) (write left rest) c
          (λ x y. absurd (not_nil part left (concat rest) lt y)) h,
    )
keep set lines (written {b = b} {rest = rest} {c = c}) (e, w, a, s, h) =
    (e, w, a, tt, HasAll-same b b (write [] rest) (get_line rest) c (λ x y. (x, y)) h)
keep set lines (close_write {b = b} {w = n} {c = c}) (e, w, a, s, h) =
    (e, omega arith, a, tt, HasAll-same b b (get_line []) join c (λ x y. (x, y)) h)
keep set lines wait_child (e, w, a, s, h) = (e, w, a, s, h)
keep set lines (read_some {p = p} {got = got} part left lt le) (e, w, a, s, h) = (
  ap (λ x. x ++ (left ++ to_write p)) (concat-append got (part ∷ []))
      ∙ append_assoc (concat got) (part ++ []) (left ++ to_write p)
      ∙ ap (λ x. concat got ++ (x ++ (left ++ to_write p))) (append-nil part)
      ∙ ap (λ x. concat got ++ x) (sym (append_assoc part left (to_write p)))
      ∙ e,
  w,
  AllFit-append got part a lt le,
  s,
  tt,
)
keep set lines (end_of_file {p = p} z) (e, w, a, s, h) =
    (e, w, a, set_up_leave set p s, (refl, nothing_left set p s (omega arith)))
keep set lines (close_read {p = p}) (e, w, a, s, h) = (e, w, a, set_up_exited set p s, h)

-- What the runs of the three programs keep.
PipeIntro-Inv :
    (lines : List (List ℕ)) {s : State} → Reach PipeIntro (pipe_start lines) s → Inv 1 lines s
PipeIntro-Inv lines here = (refl, refl, tt, tt, tt)
PipeIntro-Inv lines (later r (PipeIntro.loop l)) = keep 1 lines l (PipeIntro-Inv lines r)
PipeIntro-Inv lines (later r (PipeIntro.parent_close {b = b} {lines = ls} {c = c})) =
    let (e, w, a, s, h) = PipeIntro-Inv lines r in
    (e, w, a, tt, HasAll-same b b (parent_setup ls) (get_line ls) c (λ x y. (x, y)) h)
PipeIntro-Inv lines (later r (PipeIntro.child_close {p = p})) =
    let (e, w, a, s, h) = PipeIntro-Inv lines r in (e, omega arith, a, set_up_one p, tt)

Dup-Inv : (lines : List (List ℕ)) {s : State} → Reach Dup (dup_start lines) s → Inv 1 lines s
Dup-Inv lines here = (refl, refl, tt, tt, tt)
Dup-Inv lines (later r (Dup.loop l)) = keep 1 lines l (Dup-Inv lines r)
Dup-Inv lines (later r (Dup.parent_close {b = b} {lines = ls} {c = c})) =
    let (e, w, a, s, h) = Dup-Inv lines r in
    (e, w, a, tt, HasAll-same b b (parent_setup ls) (get_line ls) c (λ x y. (x, y)) h)
Dup-Inv lines (later r (Dup.child_close {p = p})) =
    let (e, w, a, s, h) = Dup-Inv lines r in (e, omega arith, a, set_up_calls p, tt)
Dup-Inv lines (later r (Dup.child_dup {p = p})) =
    let (e, w, a, s, h) = Dup-Inv lines r in (e, w, a, set_up_one p, tt)

Fifo-Inv : (lines : List (List ℕ)) {s : State} → Reach Fifo (fifo_start lines) s → Inv 0 lines s
Fifo-Inv lines here = (refl, refl, tt, tt, tt)
Fifo-Inv lines (later r (Fifo.loop l)) = keep 0 lines l (Fifo-Inv lines r)
Fifo-Inv lines (later r open_both) = let (e, w, a, s, h) = Fifo-Inv lines r in (e, refl, tt, tt, tt)

-- A state in which the child has seen the end of the input.
abbrev pub HasEnded : State → Type 0
HasEnded (state b w p leave got) = Unit
HasEnded (state b w p child_exited got) = Unit
HasEnded _ = ⊥

abbrev pub reads : State → List (List ℕ)
reads (state b w p c got) = got

delivered :
    (set : ℕ) (lines : List (List ℕ)) (s : State)
    → Inv set lines s
    → HasEnded s
    → AllFit (reads s) × (concat (reads s) ≡ concat lines)
delivered set lines (state b w p leave got) (e, n, a, s, (x, y)) h =
    (a, sym (append-nil (concat got)) ∙ ap (λ l. concat got ++ l) (sym (rw (x, y) refl)) ∙ e)
delivered set lines (state b w p child_exited got) (e, n, a, s, (x, y)) h =
    (a, sym (append-nil (concat got)) ∙ ap (λ l. concat got ++ l) (sym (rw (x, y) refl)) ∙ e)
delivered set lines (state b w p read got) i h = absurd h
delivered set lines (state b w p (child_setup k) got) i h = absurd h

-- In the three programs, however writes and reads are cut up: when the child sees the end of the
-- input it has read the bytes of all lines, in order, and each read gave at least one byte and no
-- more than the buffer holds.
pub pipes_deliver :
    (program : Program) (lines : List (List ℕ)) (s : State)
    → Runs program lines s
    → HasEnded s
    → AllFit (reads s) × (concat (reads s) ≡ concat lines)
pipes_deliver pipe_intro lines s r = delivered 1 lines s (PipeIntro-Inv lines r)
pipes_deliver dup lines s r = delivered 1 lines s (Dup-Inv lines r)
pipes_deliver mkfifo_intro lines s r = delivered 0 lines s (Fifo-Inv lines r)
