-- ===== src/Locks/Latch/Wait.antt =====
-- What the Latch of futex/latch.cpp promises: Wait does not return early, and no sleeper is missed.
use hse_multithreading_examp.Locks.Latch.{
  Latch, Pc, arriving, waking, loading, testing, asleep, through, Move, arrive_last, arrive, wake,
  load, sleep, changed, woken, interrupted, start, less_one,
}
use hse_multithreading_examp.Prelude.{
  ltb_ge, ◌⊎◌, ap, ℕ, ◌+◌, ◌≤◌, ◌<◌, ◌≡◌, ◌≢◌, refl, arith, update, ltb, Bool-cases, inl, inr, ◌==◌,
}
use hse_multithreading_examp.Threads.{
  total-beyond, le-total, total-const, total-update, total, System, Reach, Reach-invariant,
}
use native.Mathlib.Decide.{dec_lt}
use mathlib.Core.Path.{subst}

-- The arrivals still to come, and the wake-ups that are due, of one thread.
abbrev arrivals : Pc → ℕ
arrivals arriving = 1
arrivals _ = 0

abbrev due : Pc → ℕ
due waking = 1
due _ = 0

-- What a thread knows of the latch; `k` wake-ups are due.
abbrev Knows : Latch → ℕ → Pc → Type 0
Knows m k (testing current) = m.count ≤ current
Knows m k (asleep since) = (since ≤ m.wakes) × ((since < m.wakes) ⊎ (0 < m.count + k))
Knows m k through = m.count ≡ 0
Knows m k _ = Unit

record Inv (workers : ℕ) (m : Latch) (pc : ℕ → Pc) : Type 0 where
  counted : m.count ≡ total arrivals workers pc
  knows : (i : ℕ) → Knows m (total due workers pc) (pc i)
  others : (i : ℕ) → workers ≤ i → arrivals (pc i) + due (pc i) ≡ 0

-- One move, by a thread that is among the arrivals that `count` counts: `k` wake-ups are due before
-- it and `k'` after it.
record Effect (m m' : Latch) (p p' : Pc) (k k' : ℕ) : Type 0 where
  count_share : m'.count + arrivals p ≡ m.count + arrivals p'
  count_falls : m'.count ≤ m.count
  wakes_rise : m.wakes ≤ m'.wakes
  no_sleeper_missed : (m.wakes < m'.wakes) ⊎ (0 < m.count + k → 0 < m'.count + k')
  own : Knows m' k' p'

effect :
    {m m' : Latch} {p p' : Pc} (k k' : ℕ)
    → Move m p m' p'
    → Knows m k p
    → arrivals p ≤ m.count
    → k' + due p ≡ k + due p'
    → Effect m m' p p' k k'
unfolding less_one
effect k k' (arrive_last e) f h d = record {
  count_share = ground arith;
  count_falls = ground arith;
  wakes_rise = omega arith;
  no_sleeper_missed = inr (λ before. omega arith);
  own = tt;
}
effect k k' (arrive ne) f h d = record {
  count_share = ground arith;
  count_falls = ground arith;
  wakes_rise = omega arith;
  no_sleeper_missed = inr (λ before. ground arith);
  own = tt;
}
effect k k' wake f h d = record {
  count_share = refl;
  count_falls = omega arith;
  wakes_rise = omega arith;
  no_sleeper_missed = inl (omega arith);
  own = tt;
}
effect k k' load f h d = record {
  count_share = refl;
  count_falls = omega arith;
  wakes_rise = omega arith;
  no_sleeper_missed = inr (λ before. omega arith);
  own = omega arith;
}
effect k k' (Move.opened e) f h d = record {
  count_share = refl;
  count_falls = omega arith;
  wakes_rise = omega arith;
  no_sleeper_missed = inr (λ before. omega arith);
  own = omega arith;
}
effect k k' (sleep ne e) f h d = record {
  count_share = refl;
  count_falls = omega arith;
  wakes_rise = omega arith;
  no_sleeper_missed = inr (λ before. omega arith);
  own = (omega arith, inr (omega arith));
}
effect k k' (changed ne e) f h d = record {
  count_share = refl;
  count_falls = omega arith;
  wakes_rise = omega arith;
  no_sleeper_missed = inr (λ before. omega arith);
  own = tt;
}
effect k k' (woken e) f h d = record {
  count_share = refl;
  count_falls = omega arith;
  wakes_rise = omega arith;
  no_sleeper_missed = inr (λ before. omega arith);
  own = tt;
}
effect k k' interrupted f h d = record {
  count_share = refl;
  count_falls = omega arith;
  wakes_rise = omega arith;
  no_sleeper_missed = inr (λ before. omega arith);
  own = tt;
}

-- The other threads know as much afterwards.
still-Knows :
    {m m' : Latch} {p p' : Pc} {k k' : ℕ} (q : Pc)
    → Effect m m' p p' k k'
    → Knows m k q
    → Knows m' k' q
still-Knows arriving e f = tt
still-Knows waking e f = tt
still-Knows loading e f = tt
still-Knows (testing c) e f = omega (arith, e.count_falls)
still-Knows (asleep s) e (le, inl lt) =
    (omega (arith, e.wakes_rise), inl (omega (arith, e.wakes_rise)))
still-Knows (asleep s) e (le, inr some_due) = elim e.no_sleeper_missed [
  | inl lt ↦ (omega arith, inl (omega arith))
  | inr f ↦ (omega (arith, e.wakes_rise), inr (f some_due))
]
still-Knows through e f = omega (arith, e.count_falls)

Move-busy : {m m' : Latch} {p p' : Pc} → Move m p m' p' → arrivals p' + due p' ≤ arrivals p + due p
Move-busy (arrive_last e) = omega arith
Move-busy (arrive e) = omega arith
Move-busy wake = omega arith
Move-busy load = omega arith
Move-busy (Move.opened e) = omega arith
Move-busy (sleep ne e) = omega arith
Move-busy (changed ne e) = omega arith
Move-busy (woken e) = omega arith
Move-busy interrupted = omega arith

module _ (workers : ℕ) {m : Latch} {pc : ℕ → Pc} (inv : Inv workers m pc) where
  -- The sum of a weight that the other threads have none of.
  total-move :
      (w : Pc → ℕ) (i : ℕ) (p' : Pc)
      → (workers ≤ i → (w (pc i) ≡ 0) × (w p' ≡ 0))
      → total w workers (update pc i p') + w (pc i) ≡ total w workers pc + w p'
  total-move w i p' out = elim (dec_lt i workers) [
    | yes lt ↦ omega (arith, total-update w workers pc i lt p')
    | no ge ↦ omega (arith, total-beyond w workers pc i p' (omega arith), out (omega arith))
  ]

  arrivals-le : (i : ℕ) → arrivals (pc i) ≤ m.count
  arrivals-le i = elim (dec_lt i workers) [
    | yes lt ↦ omega (arith, le-total arrivals workers pc i lt, inv.counted)
    | no ge ↦ omega (arith, inv.others i (omega arith))
  ]

  keep : (i : ℕ) (m' : Latch) (p' : Pc) → Move m (pc i) m' p' → Inv workers m' (update pc i p')
  keep i m' p' mv = record {
    counted = omega (arith, e.count_share, inv.counted, arrivals_move);
    knows = λ j. elim (Bool-cases (i == j)) [
      | inl same ↦ rw same e.own
      | inr other ↦ rw other (still-Knows (pc j) e (inv.knows j))
    ];
    others = λ j ge. elim (Bool-cases (i == j)) [
      | inl same ↦
          let ij : i ≡ j = ground arith in
          rw same (omega (arith, Move-busy mv, inv.others i (omega arith)))
      | inr other ↦ rw other (inv.others j ge)
    ];
  }
    where
      arrivals_move :
          total arrivals workers (update pc i p') + arrivals (pc i)
          ≡ total arrivals workers pc + arrivals p'
      arrivals_move =
          total-move arrivals i p'
            (λ ge. (omega (arith, inv.others i ge), omega (arith, inv.others i ge, Move-busy mv)))

      due_move : total due workers (update pc i p') + due (pc i) ≡ total due workers pc + due p'
      due_move =
          total-move due i p'
            (λ ge. (omega (arith, inv.others i ge), omega (arith, inv.others i ge, Move-busy mv)))

      e : Effect m m' (pc i) p' (total due workers pc) (total due workers (update pc i p'))
      e =
          effect (total due workers pc) (total due workers (update pc i p')) mv (inv.knows i)
            (arrivals-le i) due_move

start-Inv : (workers : ℕ) → Inv workers (start workers).mem (start workers).pc
start-Inv workers = record {
  counted = omega (arith, total-const arrivals workers (start workers).pc 1 (λ i lt. ground arith));
  knows = λ i. elim (Bool-cases (ltb i workers)) [ inl e ↦ rw e tt | inr e ↦ rw e tt ];
  others = λ i ge. rw (ltb_ge i workers ge);
}

reached :
    (workers : ℕ) {t : System Latch Pc} → Reach Move (start workers) t → Inv workers t.mem t.pc
reached workers =
    Reach-invariant Move (Inv workers) (λ m pc i m' p' inv mv. keep workers inv i m' p' mv)
      (start-Inv workers)

-- In every reachable state, once any thread's Wait has returned, all workers have counted down.
pub wait_not_early :
    (workers : ℕ) {t : System Latch Pc}
    → Reach Move (start workers) t
    → (i j : ℕ) → t.pc i ≡ through
    → j < workers
    → t.pc j ≢ arriving
wait_not_early workers {t} r i j e lt a =
    absurd (omega (arith, inv.counted, le-total arrivals workers t.pc j lt, ap arrivals a, opened))
  where
    inv : Inv workers t.mem t.pc
    inv = reached workers r

    opened : t.mem.count ≡ 0
    opened = subst (Knows t.mem (total due workers t.pc)) e (inv.knows i)

arrivals_none : (p : Pc) → p ≢ arriving → arrivals p ≡ 0
arrivals_none arriving h = absurd (h refl)
arrivals_none _ h = refl

due_none : (p : Pc) → p ≢ waking → due p ≡ 0
due_none waking h = absurd (h refl)
due_none _ h = refl

-- No wake-up is lost: in every reachable state in which all workers have returned from CountDown,
-- a thread that sleeps in FutexWait fell asleep before a call of FutexWake, which wakes it.
pub no_lost_wake :
    (workers : ℕ) {t : System Latch Pc}
    → Reach Move (start workers) t
    → ((j : ℕ) → j < workers → (t.pc j ≢ arriving) × (t.pc j ≢ waking))
    → (i since : ℕ) → t.pc i ≡ asleep since
    → since < t.mem.wakes
no_lost_wake workers {t} r returned i since e = elim asleep_knows.1 [
  | inl lt ↦ lt
  | inr some_due ↦ absurd (omega (arith, inv.counted, no_arrivals, none_due))
]
  where
    inv : Inv workers t.mem t.pc
    inv = reached workers r

    asleep_knows :
        (since ≤ t.mem.wakes) × ((since < t.mem.wakes) ⊎ (0 < t.mem.count + total due workers t.pc))
    asleep_knows = subst (Knows t.mem (total due workers t.pc)) e (inv.knows i)

    no_arrivals : total arrivals workers t.pc ≡ 0
    no_arrivals = omega (
      arith,
      total-const arrivals workers t.pc 0 (λ j lt. arrivals_none (t.pc j) (returned j lt).0),
    )

    none_due : total due workers t.pc ≡ 0
    none_due =
        omega (arith, total-const due workers t.pc 0 (λ j lt. due_none (t.pc j) (returned j lt).1))
