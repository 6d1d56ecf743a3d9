-- ===== src/Locks/Deadlock/Freedom.antt =====
-- NoDeadlock of synchronization_primitives/mutex/deadlock.cpp never gets stuck.
use native.Mathlib.Decide.{dec_lt}
use mathlib.Core.Path.{subst}
use hse_multithreading_examp.Prelude.{
  ◌⊎◌, ap, eqb_ne, ltb_ge, ℕ, ◌+◌, ◌≤◌, ◌<◌, ◌≡◌, ◌≢◌, refl, Bool, true, false, arith, update,
  Bool-cases, inl, inr, ◌==◌,
}
use hse_multithreading_examp.Threads.{
  System, Step, pick, Reach, Reach-invariant, total, total-update, le-total, add-le-total,
  total-const, has_share,
}
use hse_multithreading_examp.Locks.Deadlock.{
  Mutexes, first, second, both, half, done, Pc, at, Move, lock_first, lock_second, unlock_second,
  unlock_first, no_deadlock,
}

abbrev holds_m1 : Pc → ℕ
holds_m1 (at s first) = 0
holds_m1 (at s done) = 0
holds_m1 (at s _) = 1

abbrev holds_m2 : Pc → ℕ
holds_m2 (at s both) = 1
holds_m2 (at s _) = 0

abbrev unfinished : Pc → ℕ
unfinished (at s done) = 0
unfinished (at s _) = 1

abbrev is_swapped : Pc → Bool
is_swapped (at s stage) = s

abbrev flag : Bool → ℕ
flag true = 1
flag false = 0

record Inv (count : ℕ) (m : Mutexes) (pc : ℕ → Pc) : Type 0 where
  held1 : total holds_m1 count pc ≡ flag m.m1
  held2 : total holds_m2 count pc ≡ flag m.m2
  in_order : (i : ℕ) → is_swapped (pc i) ≡ false
  few : (i : ℕ) → count ≤ i → pc i ≡ at false done

record Effect (m m' : Mutexes) (p p' : Pc) : Type 0 where
  share1 : flag m'.m1 + holds_m1 p ≡ flag m.m1 + holds_m1 p'
  share2 : flag m'.m2 + holds_m2 p ≡ flag m.m2 + holds_m2 p'
  in_order_after : is_swapped p' ≡ false
  started : p ≢ at false done

flag-le : (b : Bool) → flag b ≤ 1
flag-le true = omega arith
flag-le false = omega arith

true-ne : true ≢ false
true-ne e = cc

effect :
    {m m' : Mutexes} {p p' : Pc}
    → Move m p m' p'
    → is_swapped p ≡ false
    → holds_m1 p ≤ flag m.m1
    → holds_m2 p ≤ flag m.m2
    → flag m.m1 ≤ 1
    → flag m.m2 ≤ 1
    → Effect m m' p p'
effect (lock_first {s = false} free) o h1 h2 l1 l2 = record {
  share1 = ground arith;
  share2 = refl;
  in_order_after = refl;
  started = λ e. cc;
}
effect (lock_second {s = false} free) o h1 h2 l1 l2 = record {
  share1 = refl;
  share2 = ground arith;
  in_order_after = refl;
  started = λ e. cc;
}
effect (unlock_second {s = false}) o h1 h2 l1 l2 = record {
  share1 = refl;
  share2 = omega arith;
  in_order_after = refl;
  started = λ e. cc;
}
effect (unlock_first {s = false}) o h1 h2 l1 l2 = record {
  share1 = omega arith;
  share2 = refl;
  in_order_after = refl;
  started = λ e. cc;
}
effect (lock_first {s = true} free) o h1 h2 l1 l2 = absurd (true-ne o)
effect (lock_second {s = true} free) o h1 h2 l1 l2 = absurd (true-ne o)
effect (unlock_second {s = true}) o h1 h2 l1 l2 = absurd (true-ne o)
effect (unlock_first {s = true}) o h1 h2 l1 l2 = absurd (true-ne o)

holds_both : (p : Pc) → 0 < holds_m2 p → 0 < holds_m1 p
holds_both (at s first) h = absurd (omega arith)
holds_both (at s second) h = absurd (omega arith)
holds_both (at s both) h = omega arith
holds_both (at s half) h = absurd (omega arith)
holds_both (at s done) h = absurd (omega arith)

-- The holder of `m1` moves, if no other thread holds `m2`.
go_on :
    (m : Mutexes) (p : Pc)
    → is_swapped p ≡ false
    → 0 < holds_m1 p
    → (m.m2 ≡ true → 0 < holds_m2 p)
    → (m' : Mutexes) × (p' : Pc) × Move m p m' p'
go_on m (at true stage) o h k = absurd (true-ne o)
go_on m (at false first) o h k = absurd (omega arith)
go_on m (at false second) o h k = elim (Bool-cases m.m2) [
  | inl locked ↦ absurd (omega (arith, k locked))
  | inr free ↦ (_, _, lock_second free)
]
go_on m (at false both) o h k = (_, _, unlock_second)
go_on m (at false half) o h k = (_, _, unlock_first)
go_on m (at false done) o h k = absurd (omega arith)

-- With `m1` free, a thread that has not finished takes it.
begin :
    (m : Mutexes) (p : Pc)
    → is_swapped p ≡ false
    → holds_m1 p ≡ 0
    → 0 < unfinished p
    → m.m1 ≡ false
    → (m' : Mutexes) × (p' : Pc) × Move m p m' p'
begin m (at true stage) o h k free = absurd (true-ne o)
begin m (at false first) o h k free = (_, _, lock_first free)
begin m (at false second) o h k free = absurd (omega arith)
begin m (at false both) o h k free = absurd (omega arith)
begin m (at false half) o h k free = absurd (omega arith)
begin m (at false done) o h k free = absurd (omega arith)

module _ (count : ℕ) {m : Mutexes} {pc : ℕ → Pc} (inv : Inv count m pc) where
  share-le :
      (w : Pc → ℕ) (b : Bool) (i : ℕ)
      → w (at false done) ≡ 0
      → total w count pc ≡ flag b
      → w (pc i) ≤ flag b
  share-le w b i none sum = elim (dec_lt i count) [
    | yes lt ↦ omega (arith, le-total w count pc i lt, sum)
    | no ge ↦ omega (arith, ap w (inv.few i (omega arith)), none)
  ]

  keep : (i : ℕ) (m' : Mutexes) (p' : Pc) → Move m (pc i) m' p' → Inv count m' (update pc i p')
  keep i m' p' mv = record {
    held1 = omega (arith, total-update holds_m1 count pc i started p', e.share1, inv.held1);
    held2 = omega (arith, total-update holds_m2 count pc i started p', e.share2, inv.held2);
    in_order = λ j. elim (Bool-cases (i == j)) [
      | inl same ↦ rw same e.in_order_after
      | inr other ↦ rw other (inv.in_order j)
    ];
    few = λ j ge. rw (eqb_ne i j (omega (arith, started))) (inv.few j ge);
  }
    where
      e : Effect m m' (pc i) p'
      e =
          effect mv (inv.in_order i) (share-le holds_m1 m.m1 i refl inv.held1)
            (share-le holds_m2 m.m2 i refl inv.held2) (flag-le m.m1) (flag-le m.m2)

      started : i < count
      started = elim (dec_lt i count) [
        | yes lt ↦ lt
        | no ge ↦ absurd (e.started (inv.few i (omega arith)))
      ]

  -- Whoever holds `m2` is the one that holds `m1`.
  same_holder :
      (i j : ℕ) → i < count → j < count → 0 < holds_m1 (pc i) → 0 < holds_m1 (pc j) → i ≡ j
  same_holder i j li lj hi hj = elim (dec_lt i j) [
    | yes lt ↦
        absurd (omega (arith, add-le-total holds_m1 count pc i j lt lj, inv.held1, flag-le m.m1))
    | no ge ↦ elim (dec_lt j i) [
      | yes lt ↦
          absurd (omega (arith, add-le-total holds_m1 count pc j i lt li, inv.held1, flag-le m.m1))
      | no le ↦ omega arith
    ]
  ]

  same_locks : (i : ℕ) → i < count → 0 < holds_m1 (pc i) → m.m2 ≡ true → 0 < holds_m2 (pc i)
  same_locks i li hi locked =
      let (j, lj, hj) = has_share holds_m2 count pc (omega (arith, inv.held2, ap flag locked)) in
      let e : j ≡ i = same_holder j i lj li (holds_both (pc j) hj) hi in
      subst (λ k. 0 < holds_m2 (pc k)) e hj

  -- Some thread moves, unless none is left that has not finished.
  next :
      0 < total unfinished count pc
      → (u : System Mutexes Pc) × Step Move (record { mem = m; pc = pc }) u
  next left = elim (Bool-cases m.m1) [
    | inl locked ↦
        let (i, lt, h) = has_share holds_m1 count pc (omega (arith, inv.held1, ap flag locked)) in
        let (m', p', mv) = go_on m (pc i) (inv.in_order i) h (same_locks i lt h) in (_, pick i mv)
    | inr free ↦
        let (i, lt, h) = has_share unfinished count pc left in
        let none : holds_m1 (pc i) ≡ 0 =
          omega (arith, le-total holds_m1 count pc i lt, inv.held1, ap flag free) in
        let (m', p', mv) = begin m (pc i) (inv.in_order i) none h free in (_, pick i mv)
  ]

start-Inv : (count : ℕ) → Inv count (no_deadlock count).mem (no_deadlock count).pc
start-Inv count = record {
  held1 = omega (arith, total-const holds_m1 count (no_deadlock count).pc 0 (λ i lt. ground arith));
  held2 = omega (arith, total-const holds_m2 count (no_deadlock count).pc 0 (λ i lt. ground arith));
  in_order = λ i. refl;
  few = λ i ge. rw (ltb_ge i count ge);
}

finished : (p : Pc) → is_swapped p ≡ false → unfinished p ≡ 0 → p ≡ at false done
finished (at s first) o h = absurd (omega arith)
finished (at s second) o h = absurd (omega arith)
finished (at s both) o h = absurd (omega arith)
finished (at s half) o h = absurd (omega arith)
finished (at s done) o h = ap (λ b. at b done) o

-- With any number of threads that take the mutexes in the same order, in every reachable state all
-- threads have finished or some thread can take a step.
pub never_stuck :
    (count : ℕ) {t : System Mutexes Pc}
    → Reach Move (no_deadlock count) t
    → ((i : ℕ) → i < count → t.pc i ≡ at false done) ⊎ ((u : System Mutexes Pc) × Step Move t u)
never_stuck count {t} r = elim (dec_lt 0 (total unfinished count t.pc)) [
  | yes left ↦ inr (next count inv left)
  | no none ↦ inl (λ i lt.
      finished (t.pc i) (inv.in_order i) (omega (arith, le-total unfinished count t.pc i lt)))
]
  where
    inv : Inv count t.mem t.pc
    inv =
        Reach-invariant Move (Inv count) (λ m pc i m' p' inv mv. keep count inv i m' p' mv)
          (start-Inv count) r
