-- ===== src/ThreadPool/Once.antt =====
-- Each task of the ThreadPool runs once, and its future gives what it did.
use hse_multithreading_examp.Prelude.{
  ℕ, suc, ◌+◌, ◌-◌, ◌<◌, ◌≤◌, ◌≡◌, ◌≢◌, inl, inr, refl, ap, ◌∙◌, Bool, true, false, some, update,
  ltb, ltb_ge, eqb_ne, ◌==◌, arith, Bool-cases,
}
use native.Mathlib.Decide.{dec_lt}
use hse_multithreading_examp.Threads.{
  System, Reach, Reach-invariant, total, total-update, le-total, add-le-total, total-const,
}
use hse_multithreading_examp.ThreadPool.{Pool, Pc, submit, test, gone, Move, start}
use hse_multithreading_examp.ThreadPool.Effects.{
  flag, holds, in_list, in_hand, got, Front, result, Effect, effect, others-Front, raced_before,
}

flag-le : (b : Bool) → flag b ≤ 1
flag-le true = omega arith
flag-le false = omega arith

module _ {R : Type 0} (does : ℕ → R) (workers k : ℕ) where
  -- Task `k` is in the list, in a worker's hands or done, if it was submitted.
  pub record Inv (m : Pool R) (pc : ℕ → Pc) : Type 0 where
    pub held : total holds (suc workers) pc ≡ flag m.locked
    pub once :
        in_list k m.tasks + total (in_hand k) (suc workers) pc + m.runs k ≡ flag (ltb k m.submitted)
    pub fronts : (i : ℕ) → Front m (pc i)
    pub ready : m.future k ≡ result (does k) (m.runs k)
    pub gots : (i : ℕ) → k < got (pc i) → 0 < m.runs k
    pub few : (i : ℕ) → suc workers ≤ i → pc i ≡ gone

  module _ {m : Pool R} {pc : ℕ → Pc} (inv : Inv m pc) where
    holds-le : (i : ℕ) → holds (pc i) ≤ flag m.locked
    holds-le i = elim (dec_lt i (suc workers)) [
      | yes lt ↦ omega (arith, le-total holds (suc workers) pc i lt, inv.held)
      | no ge ↦ omega (arith, ap holds (inv.few i (omega arith)))
    ]

    -- Two threads do not have the mutex together.
    apart : (i j : ℕ) → i ≢ j → holds (pc i) ≡ 1 → holds (pc j) ≡ 0
    apart i j ne hi = elim (dec_lt j (suc workers)) [
      | no ge ↦ ap holds (inv.few j (omega arith))
      | yes lj ↦ elim (dec_lt i (suc workers)) [
        | no ge ↦ absurd (omega (arith, hi, ap holds (inv.few i (omega arith))))
        | yes li ↦ elim (dec_lt i j) [
          | yes lt ↦
              omega
                (arith, add-le-total holds (suc workers) pc i j lt lj, inv.held, flag-le m.locked)
          | no ge ↦ omega (
            arith,
            add-le-total holds (suc workers) pc j i (omega arith) li,
            inv.held,
            flag-le m.locked,
          )
        ]
      ]
    ]

    keep :
        (i : ℕ) (m' : Pool R) (p' : Pc)
        → Move does workers m (pc i) m' p'
        → m.raced ≡ false
        → Inv m' (update pc i p')
    keep i m' p' mv clean = record {
      held =
          omega (arith, total-update holds (suc workers) pc i started p', e.lock_share, inv.held);
      once =
          omega
            (arith, total-update (in_hand k) (suc workers) pc i started p', e.task_share, inv.once);
      fronts = λ j. elim (Bool-cases (i == j)) [
        | inl same ↦ rw same e.own_front
        | inr other ↦
            rw other (
              others-Front does workers k (pc j) mv clean (apart i j (ground arith)) (inv.fronts j))
      ];
      ready = e.future_after;
      gots = λ j. elim (Bool-cases (i == j)) [
        | inl same ↦ rw same (λ g. elim (e.got_after.0 g) [
          | inl before ↦ omega (arith, inv.gots i before, e.got_after.1)
          | inr now ↦ now
        ])
        | inr other ↦ rw other (λ g. omega (arith, inv.gots j g, e.got_after.1))
      ];
      few = λ j ge. rw (eqb_ne i j (omega (arith, started))) (inv.few j ge);
    }
      where
        e : Effect does workers k m m' (pc i) p'
        e = effect does workers k mv clean (holds-le i) (flag-le m.locked) (inv.fronts i) inv.ready

        started : i < suc workers
        started = elim (dec_lt i (suc workers)) [
          | yes lt ↦ lt
          | no ge ↦ absurd (e.started (inv.few i (omega arith)))
        ]

  at_start :
      (P : Pc → Type 0) (count i : ℕ)
      → P (submit count)
      → ((w : ℕ) → P (test w))
      → P gone
      → P ((start {R = R} workers count).pc i)
  at_start P count i a b c = elim (Bool-cases (i == 0)) [
    | inl first ↦ rw first a
    | inr other ↦ elim (Bool-cases (ltb i (suc workers))) [
      | inl e ↦ rw (other, e) (b (i - 1))
      | inr e ↦ rw (other, e) c
    ]
  ]

  start-Inv : (count : ℕ) → Inv (start {R = R} workers count).mem (start {R = R} workers count).pc
  start-Inv count = record {
    held = omega (
      arith,
      total-const holds (suc workers) (start {R = R} workers count).pc 0
          (λ i lt. at_start (λ p. holds p ≡ 0) count i refl (λ w. refl) refl),
    );
    once =
        let none : flag (ltb k 0) ≡ 0 = (ground arith) in
        omega (
          arith,
          none,
          total-const (in_hand k) (suc workers) (start {R = R} workers count).pc 0
              (λ i lt. at_start (λ p. in_hand k p ≡ 0) count i refl (λ w. refl) refl),
        );
    fronts = λ i. at_start (Front (start {R = R} workers count).mem) count i tt (λ w. tt) tt;
    ready = refl;
    gots =
        λ i g. absurd (omega (arith, g, at_start (λ p. got p ≡ 0) count i refl (λ w. refl) refl));
    few = λ i ge. rw (eqb_ne i 0 (omega arith), ltb_ge i (suc workers) ge);
  }

-- With any number of workers and of tasks, under any interleaving in which no worker uses the list while
-- Submit appends to it, a task is called at most once, and never before it was submitted. When the owner of the pool has got a task's future, the task was
-- called exactly once, and the future holds what its function did, be it a result or an exception.
pub tasks_run_once :
    {R : Type 0} (does : ℕ → R) (workers count : ℕ) {t : System (Pool R) Pc}
    → Reach (Move does workers) (start workers count) t
    → t.mem.raced ≡ false
    → (k : ℕ)
    → (t.mem.runs k ≤ 1)
      × (0 < t.mem.runs k → k < t.mem.submitted)
      × (k < got (t.pc 0) → (t.mem.runs k ≡ 1) × (t.mem.future k ≡ some (does k)))
tasks_run_once {R} does workers count {t} r clean k = (
  omega (arith, at_most, flag-le (ltb k t.mem.submitted)),
  was_submitted,
  λ g. let e = exactly (inv.gots 0 g) in (e, inv.ready ∙ ap (result (does k)) e),
)
  where
    inv : Inv does workers k t.mem t.pc
    inv =
        Reach-invariant (Move does workers) (λ m pc. m.raced ≡ false → Inv does workers k m pc)
          (λ m pc i m' p' inv mv e.
            let before = raced_before does workers k mv e in
            keep does workers k (inv before) i m' p' mv before)
          (λ e. start-Inv does workers k count) r clean

    at_most : t.mem.runs k ≤ flag (ltb k t.mem.submitted)
    at_most = omega (arith, inv.once)

    exactly : 0 < t.mem.runs k → t.mem.runs k ≡ 1
    exactly some_run = omega (arith, at_most, flag-le (ltb k t.mem.submitted))

    was_submitted : 0 < t.mem.runs k → k < t.mem.submitted
    was_submitted h = elim (Bool-cases (ltb k t.mem.submitted)) [
      | inl e ↦ ground arith
      | inr e ↦ absurd (omega (arith, at_most, ap flag e, h))
    ]
