-- ===== src/Ipc/Signals.antt =====
-- ipc/signals.cpp: a parent that sends SIGUSR1 and then SIGTERM, and a child that has a handler for the
-- first; one call, test or delivery a step. A sleep may end at any time.
use mathlib.Core.Path.{subst}
use hse_multithreading_examp.Prelude.{◌≡◌, ◌≢◌, ◌⊎◌, inl, inr, refl, sym, Bool, true, false}

-- The child before `signal`, in its loop for SIGUSR1, in its loop for SIGTERM, and dead.
pub data Child : Type 0 where
  starting : Child
  waiting_usr : Child
  waiting_term : Child
  dead : Child

-- The parent before each `kill`, at `wait`, and behind it.
pub data Parent : Type 0 where
  before_usr : Parent
  before_term : Parent
  waiting : Parent
  exited : Parent

-- `g_sigUsrReceived`, and which signals were sent and not delivered yet.
pub record Signals : Type 0 where
  pub received : Bool
  pub usr_pending : Bool
  pub term_pending : Bool

pub data State : Type 0 where
  state : (signals : Signals) (child : Child) (parent : Parent) → State

-- Without a handler SIGUSR1 ends the process, as SIGTERM does.
pub data Step : State → State → Type 0 where
  set_handler : {g : Signals} {p : Parent} → Step (state g starting p) (state g waiting_usr p)
  wait_more :
      {g : Signals} {p : Parent}
      → g.received ≡ false
      → Step (state g waiting_usr p) (state g waiting_usr p)
  was_received :
      {g : Signals} {p : Parent}
      → g.received ≡ true
      → Step (state g waiting_usr p) (state g waiting_term p)
  wait_for_term :
      {g : Signals} {p : Parent} → Step (state g waiting_term p) (state g waiting_term p)
  default_action :
      {g : Signals} {p : Parent}
      → g.usr_pending ≡ true
      → Step (state g starting p) (state (record g { usr_pending = false }) dead p)
  handler :
      {g : Signals} {c : Child} {p : Parent}
      → g.usr_pending ≡ true
      → c ≢ starting
      → c ≢ dead
      → Step (state g c p) (state (record g { usr_pending = false; received = true }) c p)
  terminate :
      {g : Signals} {c : Child} {p : Parent}
      → g.term_pending ≡ true
      → c ≢ dead
      → Step (state g c p) (state (record g { term_pending = false }) dead p)
  kill_usr :
      {g : Signals} {c : Child}
      → Step (state g c before_usr) (state (record g { usr_pending = true }) c before_term)
  kill_term :
      {g : Signals} {c : Child}
      → Step (state g c before_term) (state (record g { term_pending = true }) c waiting)
  wait_child : {g : Signals} → Step (state g dead waiting) (state g dead exited)

abbrev pub start : State
start =
    state (record { received = false; usr_pending = false; term_pending = false }) starting
      before_usr

pub data Reach (s : State) : State → Type 0 where
  here : Reach s s
  later : {t u : State} → Reach s t → Step t u → Reach s u

-- A child that has left its first loop has received SIGUSR1, which the parent has sent; at the parent's
-- `wait` the child is dead or SIGTERM is on its way to it.
record Inv (g : Signals) (c : Child) (p : Parent) : Type 0 where
  nothing_yet : p ≡ before_usr → (g.received ≡ false) × (g.usr_pending ≡ false)
  term_on_its_way : p ≡ waiting → c ≢ dead → g.term_pending ≡ true
  none_left : p ≡ exited → c ≡ dead
  was_told : c ≡ waiting_term → g.received ≡ true

abbrev Holds : State → Type 0
Holds (state g c p) = Inv g c p

keep : {s t : State} → Step s t → Holds s → Holds t
keep set_handler i = record {
  nothing_yet = i.nothing_yet;
  term_on_its_way = λ e ne. i.term_on_its_way e (λ x. cc);
  none_left = λ e. absurd (let x = i.none_left e in cc);
  was_told = λ e. cc;
}
keep (wait_more e) i = i
keep (was_received r) i = record {
  nothing_yet = i.nothing_yet;
  term_on_its_way = λ e ne. i.term_on_its_way e (λ x. cc);
  none_left = λ e. absurd (let x = i.none_left e in cc);
  was_told = λ e. r;
}
keep wait_for_term i = i
keep (default_action u) i = record {
  nothing_yet = λ e. absurd (let x = (i.nothing_yet e).1 in cc);
  term_on_its_way = λ e ne. absurd (ne refl);
  none_left = λ e. refl;
  was_told = λ e. cc;
}
keep (handler u a b) i = record {
  nothing_yet = λ e. absurd (let x = (i.nothing_yet e).1 in cc);
  term_on_its_way = i.term_on_its_way;
  none_left = i.none_left;
  was_told = λ e. refl;
}
keep (terminate u ne) i = record {
  nothing_yet = i.nothing_yet;
  term_on_its_way = λ e ne. absurd (ne refl);
  none_left = λ e. refl;
  was_told = λ e. cc;
}
keep kill_usr i = record {
  nothing_yet = λ e. cc;
  term_on_its_way = λ e ne. cc;
  none_left = λ e. cc;
  was_told = i.was_told;
}
keep kill_term i = record {
  nothing_yet = λ e. cc;
  term_on_its_way = λ e ne. refl;
  none_left = λ e. cc;
  was_told = i.was_told;
}
keep wait_child i = record {
  nothing_yet = λ e. cc;
  term_on_its_way = λ e ne. cc;
  none_left = λ e. refl;
  was_told = λ e. cc;
}

reached : {s : State} → Reach start s → Holds s
reached here = record {
  nothing_yet = λ e. (refl, refl);
  term_on_its_way = λ e ne. cc;
  none_left = λ e. cc;
  was_told = λ e. cc;
}
reached (later r st) = keep st (reached r)

Reach-trans : {s t u : State} → Reach s t → Reach t u → Reach s u
Reach-trans r here = r
Reach-trans r (later q st) = later (Reach-trans r q) st

-- A child that is told to end does, and the parent with it.
end_child :
    (g : Signals) (c : Child)
    → g.term_pending ≡ true
    → c ≢ dead
    → (h : Signals) × Reach (state g c waiting) (state h dead exited)
end_child g c t ne = (_, later (later here (terminate t ne)) wait_child)

abbrev CanExit : State → Type 0
CanExit s = (g : Signals) × Reach s (state g dead exited)

is_dead : (c : Child) → (c ≡ dead) ⊎ (c ≢ dead)
is_dead dead = inl refl
is_dead starting = inr (λ e. cc)
is_dead waiting_usr = inr (λ e. cc)
is_dead waiting_term = inr (λ e. cc)

at_wait :
    (g : Signals) (c : Child) → (c ≢ dead → g.term_pending ≡ true) → CanExit (state g c waiting)
at_wait g c t = elim (is_dead c) [
  | inl e ↦ (
    g,
    subst (λ d. Reach (state g d waiting) (state g dead exited)) (sym e) (later here wait_child),
  )
  | inr ne ↦ end_child g c (t ne) ne
]

before_wait : (g : Signals) (c : Child) → CanExit (state g c before_term)
before_wait g c =
    let (h, r) = at_wait (record g { term_pending = true }) c (λ ne. refl) in
    (h, Reach-trans (later here kill_term) r)

can_exit : (g : Signals) (c : Child) (p : Parent) → Inv g c p → CanExit (state g c p)
can_exit g c before_usr i =
    let (h, r) = before_wait (record g { usr_pending = true }) c in
    (h, Reach-trans (later here kill_usr) r)
can_exit g c before_term i = before_wait g c
can_exit g c waiting i = at_wait g c (i.term_on_its_way refl)
can_exit g c exited i =
    (g, subst (λ d. Reach (state g d exited) (state g dead exited)) (sym (i.none_left refl)) here)

-- In every reachable state: the child waits for SIGTERM only after SIGUSR1 has come, which the parent has
-- sent by then; a parent that has exited has left no child behind; and a state with the child dead and the
-- parent exited can still be reached, also when SIGUSR1 came before the handler was set.
pub child_is_told :
    {g : Signals} {c : Child} {p : Parent}
    → Reach start (state g c p)
    → (c ≡ waiting_term → (g.received ≡ true) × (p ≢ before_usr))
      × (p ≡ exited → c ≡ dead)
      × ((h : Signals) × Reach (state g c p) (state h dead exited))
child_is_told {g} {c} {p} r = (
  (λ e. (
    inv.was_told e,
    λ b. absurd (let x = (inv.nothing_yet b).0 in let y = inv.was_told e in cc),
  )),
  inv.none_left,
  can_exit g c p inv,
)
  where
    inv : Inv g c p
    inv = reached r
