-- ===== src/Ipc/MessageQueue/Delivery.antt =====
-- What the message queue delivers.
use mathlib.Core.Path.{subst}
use mathlib.Core.List.{head-eq_of_cons-eq, tail-eq_of_cons-eq}
use hse_multithreading_examp.Prelude.{
  ℕ, ◌≡◌, ◌⊎◌, inl, inr, refl, ap, sym, ◌∙◌, Bool, true, false, Option, List, [], ◌∷◌, ◌++◌, map,
  append-nil, append_assoc, length, some, ◌<◌,
}
use hse_multithreading_examp.Ipc.Text.{text, stored, NoZero, text-stored}
use hse_multithreading_examp.Ipc.MessageQueue.{
  data_size, Message, line_message, stop_message, Parent, parent_start, get_line, send_line,
  send_stop, unlink, join, parent_exited, Child, child_start, receive, test, child_exited,
  child_killed, State, state, Step, parent_open, read_line, send, end_of_input, send_last, remove,
  wait_child, child_open_first, child_open, child_open_late, get, stop, print, print_beyond,
  wait_killed, start, Reach, here, later,
}

-- What the child is to print of a line.
abbrev pub shown : List ℕ → Option (List ℕ)
shown line = text (stored data_size line)

-- The messages of some lines and the stop.
abbrev stream : List (List ℕ) → List Message
stream lines = map line_message lines ++ (stop_message ∷ [])

-- What the parent has still to send.
abbrev todo : Parent → List Message
todo (parent_start lines) = stream lines
todo (get_line rest) = stream rest
todo (send_line line rest) = line_message line ∷ stream rest
todo send_stop = stop_message ∷ []
todo unlink = []
todo join = []
todo parent_exited = []

-- The lines `rest` are still to come, as the messages `ms`.
abbrev Waits : List (List ℕ) → List Message → List (Option (List ℕ)) → Type 0
Waits lines ms out =
    (rest : List (List ℕ)) × (ms ≡ stream rest) × (out ++ map shown rest ≡ map shown lines)

abbrev Tests : List (List ℕ) → Message → List Message → List (Option (List ℕ)) → Type 0
Tests lines m ms out =
    ((m ≡ stop_message) × (out ≡ map shown lines))
    ⊎ ((line : List ℕ) × (rest : List (List ℕ)) × (m ≡ line_message line)
        × (ms ≡ stream rest)
        × (out ++ map shown (line ∷ rest) ≡ map shown lines))

abbrev Good : List (List ℕ) → Child → List Message → List (Option (List ℕ)) → Type 0
Good lines child_start ms out = Waits lines ms out
Good lines (receive true) ms out = Waits lines ms out
Good lines (receive false) ms out = Unit
Good lines (test true m) ms out = Tests lines m ms out
Good lines (test false m) ms out = ⊥
Good lines child_exited ms out = out ≡ map shown lines
Good lines child_killed ms out = Unit

abbrev Inv : List (List ℕ) → State → Type 0
Inv lines (state b q p c out) = Good lines c (q ++ todo p) out

got :
    (lines : List (List ℕ)) (m : Message) (ms : List Message) (out : List (Option (List ℕ)))
    → Waits lines (m ∷ ms) out
    → Tests lines m ms out
got lines m ms out ([], e, p) = inl (head-eq_of_cons-eq e, sym (append-nil out) ∙ p)
got lines m ms out (line ∷ rest, e, p) =
    inr (line, rest, head-eq_of_cons-eq e, tail-eq_of_cons-eq e, p)

not_stop : (line : List ℕ) → (line_message line).is_stop ≡ false
unfolding line_message
not_stop line = refl

is_stop_stop : stop_message.is_stop ≡ true
unfolding stop_message
is_stop_stop = refl

stopped :
    (lines : List (List ℕ)) (m : Message) (ms : List Message) (out : List (Option (List ℕ)))
    → m.is_stop ≡ true
    → Tests lines m ms out
    → out ≡ map shown lines
stopped lines m ms out e (inl (f, p)) = p
stopped lines m ms out e (inr (line, rest, f, g, p)) =
    absurd (let h = not_stop line in let k = ap (λ (a : Message). a.is_stop) f in cc)

text_line : (line : List ℕ) → text (line_message line).bytes ≡ shown line
unfolding line_message
text_line line = refl

printed :
    (lines : List (List ℕ)) (m : Message) (ms : List Message) (out : List (Option (List ℕ)))
    → m.is_stop ≡ false
    → Tests lines m ms out
    → Waits lines ms (out ++ (text m.bytes ∷ []))
printed lines m ms out e (inl (f, p)) =
    absurd (let h = is_stop_stop in let k = ap (λ (a : Message). a.is_stop) f in cc)
printed lines m ms out e (inr (line, rest, f, g, p)) = (
  rest,
  g,
  append_assoc out (text m.bytes ∷ []) (map shown rest)
      ∙ ap (λ t. out ++ (t ∷ map shown rest))
          (ap (λ (a : Message). text a.bytes) f ∙ text_line line)
      ∙ p,
)

keep : (lines : List (List ℕ)) {s t : State} → Step s t → Inv lines s → Inv lines t
keep lines parent_open g = g
keep lines read_line g = g
keep lines (send {q = q} {line = line} {rest = rest} {c = c} {out = out} lt) g =
    subst (λ ms. Good lines c ms out) (sym (append_assoc q (line_message line ∷ []) (stream rest)))
      g
keep lines end_of_input g = g
keep lines (send_last {q = q} {c = c} {out = out} lt) g =
    subst (λ ms. Good lines c ms out) (sym (append_assoc q (stop_message ∷ []) [])) g
keep lines remove g = g
keep lines wait_child g = g
keep lines wait_killed g = tt
keep lines (print_beyond e f) g = tt
keep lines child_open_first g = g
keep lines (child_open e) g = g
keep lines (child_open_late e) g = tt
keep lines (get {q = q} {m = m} {p = p} {out = out}) g = got lines m (q ++ todo p) out g
keep lines (stop {q = q} {m = m} {p = p} {shared = true} {out = out} e) g =
    stopped lines m (q ++ todo p) out e g
keep lines (stop {shared = false} e) g = absurd g
keep lines (print {q = q} {m = m} {p = p} {shared = true} {out = out} e) g =
    printed lines m (q ++ todo p) out e g
keep lines (print {shared = false} e) g = absurd g

reached : (lines : List (List ℕ)) {s : State} → Reach (start lines) s → Inv lines s
reached lines here = (lines, refl, refl)
reached lines (later r st) = keep lines st (reached lines r)

-- A line that is shorter than the buffer and has no zero byte.
abbrev pub AllFit : List (List ℕ) → Type 0
AllFit [] = Unit
AllFit (line ∷ lines) = ((length line < data_size) × NoZero line) × AllFit lines

shown_whole : (lines : List (List ℕ)) → AllFit lines → map shown lines ≡ map some lines
shown_whole [] a = refl
shown_whole (line ∷ lines) ((short, plain), a) =
    rw (text-stored data_size line plain short, shown_whole lines a)

-- For lines of fewer than 1024 bytes without a zero byte: in every run that ends, whichever process opens
-- the queue first, the child has printed the bytes of every line, once and in order, and nothing for
-- the stop.
pub queue_delivers :
    (lines : List (List ℕ))
    → AllFit lines
    → {b : Bool} {q : List Message} {out : List (Option (List ℕ))}
    → Reach (start lines) (state b q parent_exited child_exited out)
    → out ≡ map some lines
queue_delivers lines a r = reached lines r ∙ shown_whole lines a
