-- ===== src/Locks/Livelock/Ending.antt =====
-- The threads of synchronization_primitives/mutex/livelock.cpp end, and leave the mutexes free.
use hse_multithreading_examp.Prelude.{
  ◌⊎◌, eqb_ne, ltb_ge, ℕ, suc, ◌+◌, ◌*◌, ◌≤◌, ◌<◌, ◌≡◌, refl, sym, ◌∙◌, Bool, true, false, arith,
  update, inl, inr, ltb, if◌then◌else◌,
}
use native.Mathlib.Decide.{dec_lt}
use hse_multithreading_examp.Threads.{
  System, Step, pick, Reach, here, later, total, total-update, le-total, total-const, has_share,
}
use hse_multithreading_examp.Locks.Deadlock.{
  Mutexes, first, second, both, half, done, Pc, at, lock_first, lock_second, unlock_second,
  unlock_first,
}
use hse_multithreading_examp.Locks.Livelock.{Move, step, first_times_out, second_times_out, start}

-- The steps that a thread has before it at most.
abbrev pub left : Pc → ℕ
left (at s first) = 4
left (at s second) = 3
left (at s both) = 2
left (at s half) = 1
left (at s done) = 0

abbrev holds_m1 : Pc → ℕ
holds_m1 (at false first) = 0
holds_m1 (at false done) = 0
holds_m1 (at false _) = 1
holds_m1 (at true both) = 1
holds_m1 (at true _) = 0

abbrev holds_m2 : Pc → ℕ
holds_m2 (at true first) = 0
holds_m2 (at true done) = 0
holds_m2 (at true _) = 1
holds_m2 (at false both) = 1
holds_m2 (at false _) = 0

abbrev flag : Bool → ℕ
flag true = 1
flag false = 0

-- The steps of a run.
abbrev pub steps : {s t : System Mutexes Pc} → Reach Move s t → ℕ
steps here = 0
steps (later r st) = suc (steps r)

record Inv (count taken : ℕ) (m : Mutexes) (pc : ℕ → Pc) : Type 0 where
  held1 : total holds_m1 count pc ≡ flag m.m1
  held2 : total holds_m2 count pc ≡ flag m.m2
  budget : taken + total left count pc ≤ 4 * count
  few : (i : ℕ) → count ≤ i → left (pc i) ≡ 0

record Effect (m m' : Mutexes) (p p' : Pc) : Type 0 where
  share1 : flag m'.m1 + holds_m1 p ≡ flag m.m1 + holds_m1 p'
  share2 : flag m'.m2 + holds_m2 p ≡ flag m.m2 + holds_m2 p'
  nearer : left p' < left p

flag-le : (b : Bool) → flag b ≤ 1
flag-le true = omega arith
flag-le false = omega arith

effect :
    {m m' : Mutexes} {p p' : Pc}
    → Move m p m' p'
    → holds_m1 p ≤ flag m.m1
    → holds_m2 p ≤ flag m.m2
    → flag m.m1 ≤ 1
    → flag m.m2 ≤ 1
    → Effect m m' p p'
effect (step (lock_first {s = false} free)) h1 h2 l1 l2 = record {
  share1 = ground arith;
  share2 = refl;
  nearer = omega arith;
}
effect (step (lock_first {s = true} free)) h1 h2 l1 l2 = record {
  share1 = refl;
  share2 = ground arith;
  nearer = omega arith;
}
effect (step (lock_second {s = false} free)) h1 h2 l1 l2 = record {
  share1 = refl;
  share2 = ground arith;
  nearer = omega arith;
}
effect (step (lock_second {s = true} free)) h1 h2 l1 l2 = record {
  share1 = ground arith;
  share2 = refl;
  nearer = omega arith;
}
effect (step (unlock_second {s = false})) h1 h2 l1 l2 = record {
  share1 = refl;
  share2 = omega arith;
  nearer = omega arith;
}
effect (step (unlock_second {s = true})) h1 h2 l1 l2 = record {
  share1 = omega arith;
  share2 = refl;
  nearer = omega arith;
}
effect (step (unlock_first {s = false})) h1 h2 l1 l2 = record {
  share1 = omega arith;
  share2 = refl;
  nearer = omega arith;
}
effect (step (unlock_first {s = true})) h1 h2 l1 l2 = record {
  share1 = refl;
  share2 = omega arith;
  nearer = omega arith;
}
effect (first_times_out {s = false}) h1 h2 l1 l2 = record {
  share1 = refl;
  share2 = refl;
  nearer = omega arith;
}
effect (first_times_out {s = true}) h1 h2 l1 l2 = record {
  share1 = refl;
  share2 = refl;
  nearer = omega arith;
}
effect (second_times_out {s = false}) h1 h2 l1 l2 = record {
  share1 = refl;
  share2 = refl;
  nearer = omega arith;
}
effect (second_times_out {s = true}) h1 h2 l1 l2 = record {
  share1 = refl;
  share2 = refl;
  nearer = omega arith;
}

holds-left : (p : Pc) → (holds_m1 p ≤ left p) × (holds_m2 p ≤ left p)
holds-left (at false first) = (omega arith, omega arith)
holds-left (at false second) = (omega arith, omega arith)
holds-left (at false both) = (omega arith, omega arith)
holds-left (at false half) = (omega arith, omega arith)
holds-left (at false done) = (omega arith, omega arith)
holds-left (at true first) = (omega arith, omega arith)
holds-left (at true second) = (omega arith, omega arith)
holds-left (at true both) = (omega arith, omega arith)
holds-left (at true half) = (omega arith, omega arith)
holds-left (at true done) = (omega arith, omega arith)

-- A thread that has not returned can end one of its waits, or take a step with what it has.
go_on : (m : Mutexes) (p : Pc) → 0 < left p → (m' : Mutexes) × (p' : Pc) × Move m p m' p'
go_on m (at s first) h = (_, _, first_times_out)
go_on m (at s second) h = (_, _, second_times_out)
go_on m (at s both) h = (_, _, step unlock_second)
go_on m (at s half) h = (_, _, step unlock_first)
go_on m (at s done) h = absurd (omega arith)

module _ (count taken : ℕ) {m : Mutexes} {pc : ℕ → Pc} (inv : Inv count taken m pc) where
  share-le :
      (w : Pc → ℕ) (b : Bool) (i : ℕ)
      → ((p : Pc) → w p ≤ left p)
      → total w count pc ≡ flag b
      → w (pc i) ≤ flag b
  share-le w b i small sum = elim (dec_lt i count) [
    | yes lt ↦ omega (arith, le-total w count pc i lt, sum)
    | no ge ↦ omega (arith, inv.few i (omega arith), small (pc i))
  ]

  keep :
      (i : ℕ) (m' : Mutexes) (p' : Pc)
      → Move m (pc i) m' p'
      → Inv count (suc taken) m' (update pc i p')
  keep i m' p' mv = record {
    held1 = omega (arith, total-update holds_m1 count pc i started p', e.share1, inv.held1);
    held2 = omega (arith, total-update holds_m2 count pc i started p', e.share2, inv.held2);
    budget = omega (arith, total-update left count pc i started p', e.nearer, inv.budget);
    few = λ j ge. rw (eqb_ne i j (omega (arith, started))) (inv.few j ge);
  }
    where
      e : Effect m m' (pc i) p'
      e =
          effect mv (share-le holds_m1 m.m1 i (λ p. (holds-left p).0) inv.held1)
            (share-le holds_m2 m.m2 i (λ p. (holds-left p).1) inv.held2) (flag-le m.m1)
            (flag-le m.m2)

      started : i < count
      started = elim (dec_lt i count) [
        | yes lt ↦ lt
        | no ge ↦ absurd (omega (arith, e.nearer, inv.few i (omega arith)))
      ]

outside_at_first :
    (b : Bool) (i count : ℕ)
    → i < count
    → (holds_m1 (at b (if ltb i count then first else done)) ≡ 0)
      × (holds_m2 (at b (if ltb i count then first else done)) ≡ 0)
outside_at_first true i count lt = (ground arith, ground arith)
outside_at_first false i count lt = (ground arith, ground arith)

start-Inv :
    (count : ℕ) (order : ℕ → Bool) → Inv count 0 (start count order).mem (start count order).pc
start-Inv count order = record {
  held1 = omega (
    arith,
    total-const holds_m1 count (start count order).pc 0
        (λ i lt. (outside_at_first (order i) i count lt).0),
  );
  held2 = omega (
    arith,
    total-const holds_m2 count (start count order).pc 0
        (λ i lt. (outside_at_first (order i) i count lt).1),
  );
  budget = omega (arith, total-const left count (start count order).pc 4 (λ i lt. ground arith));
  few = λ i ge. rw (ltb_ge i count ge);
}

reached :
    (count : ℕ) (order : ℕ → Bool) {t : System Mutexes Pc} (r : Reach Move (start count order) t)
    → Inv count (steps r) t.mem t.pc
reached count order here = start-Inv count order
reached count order (later r (pick i mv)) = keep count (steps r) (reached count order r) i _ _ mv

returned : (p : Pc) → left p ≡ 0 → (s : Bool) × (p ≡ at s done)
returned (at s first) e = absurd (omega arith)
returned (at s second) e = absurd (omega arith)
returned (at s both) e = absurd (omega arith)
returned (at s half) e = absurd (omega arith)
returned (at s done) e = (s, refl)

flag_zero : (b : Bool) → flag b ≡ 0 → b ≡ false
flag_zero true e = absurd (omega arith)
flag_zero false e = refl

-- With any number of threads, each in either order, and under any interleaving and any timeouts: a run
-- has at most four steps a thread, and in the state that it reaches either some thread can take a step
-- or all threads have returned and both mutexes are free.
pub threads_return :
    (count : ℕ) (order : ℕ → Bool) {t : System Mutexes Pc} (r : Reach Move (start count order) t)
    → (steps r ≤ 4 * count)
      × (((u : System Mutexes Pc) × Step Move t u)
          ⊎ (((i : ℕ) → i < count → (s : Bool) × (t.pc i ≡ at s done))
              × (t.mem.m1 ≡ false)
              × (t.mem.m2 ≡ false)))
threads_return count order {t} r = (
  omega (arith, inv.budget),
  elim (dec_lt 0 (total left count t.pc)) [
    | yes more ↦
        let (i, lt, h) = has_share left count t.pc more in
        let (m', p', mv) = go_on t.mem (t.pc i) h in inl (_, pick i mv)
    | no no_more ↦
        let all_left : (i : ℕ) → i < count → left (t.pc i) ≡ 0 =
          λ i lt. omega (arith, le-total left count t.pc i lt) in
        inr (
          (λ i lt. returned (t.pc i) (all_left i lt)),
          flag_zero t.mem.m1 (
              sym inv.held1
              ∙ total_zero holds_m1
                  (λ i lt. omega (arith, (holds-left (t.pc i)).0, all_left i lt))),
          flag_zero t.mem.m2 (
              sym inv.held2
              ∙ total_zero holds_m2
                  (λ i lt. omega (arith, (holds-left (t.pc i)).1, all_left i lt))),
        )
  ],
)
  where
    inv : Inv count (steps r) t.mem t.pc
    inv = reached count order r

    total_zero : (w : Pc → ℕ) → ((i : ℕ) → i < count → w (t.pc i) ≡ 0) → total w count t.pc ≡ 0
    total_zero w h = omega (arith, total-const w count t.pc 0 h)
