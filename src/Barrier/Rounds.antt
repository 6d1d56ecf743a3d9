-- ===== src/Barrier/Rounds.antt =====
-- What every step of the workers of barrier.cpp keeps.
use hse_multithreading_examp.Prelude.{
  ℕ, suc, ◌+◌, ◌≤◌, ◌<◌, ◌≡◌, ◌≢◌, ◌⊎◌, inl, inr, refl, sym, ap, ◌∙◌, arith, update, ltb_ge, lt→ltb,
  eqb_ne, ◌==◌, if◌then◌else◌, Bool-cases,
}
use mathlib.Core.Path.{subst}
use native.Mathlib.Decide.{dec_lt}
use hse_multithreading_examp.Threads.{
  System, Reach, Reach-invariant, total, total-update, add-le-total, total-const,
}
use hse_multithreading_examp.Barrier.{
  Barrier, Pc, working, waiting, Move, arrive, arrive_last, wake, start,
}

-- A worker that has not arrived in a phase.
abbrev pub absent : ℕ → Pc → ℕ
absent phase (working k) = 1
absent phase (waiting k) = if k == phase then 0 else 1

abbrev pub unfinished : ℕ → Pc → ℕ
unfinished rounds (working k) = if k == rounds then 0 else 1
unfinished rounds (waiting k) = 1

pub absent_here : (phase k : ℕ) → k ≡ phase → absent phase (waiting k) ≡ 0
absent_here phase k e = ground arith

pub absent_before : (phase k : ℕ) → k < phase → absent phase (waiting k) ≡ 1
absent_before phase k lt = ground arith

pub not_done : (rounds k : ℕ) → k ≡ rounds → ¬ (0 < unfinished rounds (working k))
not_done rounds k e h = absurd (ground arith)

module _ (workers rounds : ℕ) where
  -- A worker is in the round of the phase, or has still to wake up from the last one.
  abbrev pub Fits : ℕ → Pc → Type 0
  Fits phase (working k) = (k ≡ phase) × (k ≤ rounds)
  Fits phase (waiting k) = ((k ≡ phase) ⊎ (suc k ≡ phase)) × (k < rounds)

  pub record Inv (m : Barrier) (pc : ℕ → Pc) : Type 0 where
    pub counted : m.arrived + total (absent m.phase) workers pc ≡ workers
    pub not_all : m.arrived < workers
    pub fits : (i : ℕ) → i < workers → Fits m.phase (pc i)
    pub few : (i : ℕ) → workers ≤ i → pc i ≡ working rounds

  absent-le : (phase : ℕ) (p : Pc) → absent phase p ≤ 1
  absent-le phase (working k) = omega arith
  absent-le phase (waiting k) = ground arith

  -- With all but one arrived, every other worker waits in this phase.
  last_one :
      {m : Barrier} {pc : ℕ → Pc}
      → Inv m pc
      → (i k j : ℕ) → i < workers
      → pc i ≡ working k
      → suc m.arrived ≡ workers
      → j < workers
      → i ≢ j
      → pc j ≡ waiting m.phase
  last_one {m} {pc} inv i k j li at last lj ne = here (pc j) (none_absent)
    where
      mover : absent m.phase (pc i) ≡ 1
      mover = ap (absent m.phase) at

      none_absent : absent m.phase (pc j) ≡ 0
      none_absent = elim (dec_lt i j) [
        | yes lt ↦
            omega (arith, add-le-total (absent m.phase) workers pc i j lt lj, inv.counted, mover)
        | no ge ↦ omega (
          arith,
          add-le-total (absent m.phase) workers pc j i (omega arith) li,
          inv.counted,
          mover,
        )
      ]

      here : (p : Pc) → absent m.phase p ≡ 0 → p ≡ waiting m.phase
      here (working q) z = absurd (omega arith)
      here (waiting q) z = ap waiting (ground arith)

  round_of : Pc → ℕ
  round_of (working k) = k
  round_of (waiting k) = k

  started :
      {m m' : Barrier} {pc : ℕ → Pc} (p : Pc) {p' : Pc}
      → Inv m pc
      → (i : ℕ) → pc i ≡ p
      → Move workers rounds m p m' p'
      → i < workers
  started p inv i at mv = elim (dec_lt i workers) [
    | yes lt ↦ lt
    | no ge ↦ absurd (not_ended p (sym at ∙ inv.few i (omega arith)) mv)
  ]
    where
      not_ended :
          {m m' : Barrier} (q : Pc) {q' : Pc}
          → q ≡ working rounds
          → Move workers rounds m q m' q'
          → ⊥
      not_ended (working k) e (arrive lt more) = let x : k ≡ rounds = cc in omega arith
      not_ended (working k) e (arrive_last lt all) = let x : k ≡ rounds = cc in omega arith
      not_ended (waiting k) e (wake lt) = cc

  still_few :
      {m : Barrier} {pc : ℕ → Pc}
      → Inv m pc
      → (i : ℕ) (p' : Pc) → i < workers
      → (j : ℕ) → workers ≤ j
      → update pc i p' j ≡ working rounds
  still_few inv i p' li j ge = rw (eqb_ne i j (omega arith)) (inv.few j ge)

  updated-Fits :
      (phase : ℕ) (pc : ℕ → Pc) (i : ℕ) (p' : Pc)
      → Fits phase p'
      → ((j : ℕ) → j < workers → i ≢ j → Fits phase (pc j))
      → (j : ℕ) → j < workers
      → Fits phase (update pc i p' j)
  updated-Fits phase pc i p' own others j lj = elim (Bool-cases (i == j)) [
    | inl same ↦ rw same own
    | inr other ↦ rw other (others j lj (ground arith))
  ]

  keep :
      {m m' : Barrier} (pc : ℕ → Pc) (i : ℕ) (p : Pc) {p' : Pc}
      → Inv m pc
      → pc i ≡ p
      → Move workers rounds m p m' p'
      → Inv m' (update pc i p')
  keep {m} pc i (working k) inv at (arrive lt more) = record {
    counted =
        let e : absent m.phase (waiting k) ≡ 0 = absent_here m.phase k at_phase in
        omega (
          arith,
          total-update (absent m.phase) workers pc i li (waiting k),
          ap (absent m.phase) at,
          e,
          inv.counted,
        );
    not_all = more;
    fits = updated-Fits m.phase pc i (waiting k) (inl at_phase, lt) (λ j lj ne. inv.fits j lj);
    few = still_few inv i (waiting k) li;
  }
    where
      li : i < workers
      li = started (working k) inv i at (arrive lt more)

      at_phase : k ≡ m.phase
      at_phase = (subst (Fits m.phase) at (inv.fits i li)).0
  keep {m} pc i (working k) inv at (arrive_last lt all) = record {
    counted = omega (
      arith,
      total-const (absent (suc m.phase)) workers (update pc i (working (suc k))) 1 (λ j lj.
          elim (Bool-cases (i == j)) [
            | inl same ↦ rw same refl
            | inr other ↦ rw other (
                ap (absent (suc m.phase)) (last_one inv i k j li at all lj (ground arith))
                ∙ not_here)
          ]),
    );
    not_all = omega arith;
    fits =
        updated-Fits (suc m.phase) pc i (working (suc k)) (ap suc at_phase, lt)
          (λ j lj ne.
            subst (Fits (suc m.phase)) (sym (last_one inv i k j li at all lj ne))
              (inr refl, omega (arith, at_phase, lt)));
    few = still_few inv i (working (suc k)) li;
  }
    where
      li : i < workers
      li = started (working k) inv i at (arrive_last lt all)

      at_phase : k ≡ m.phase
      at_phase = (subst (Fits m.phase) at (inv.fits i li)).0

      not_here : absent (suc m.phase) (waiting m.phase) ≡ 1
      not_here = absent_before (suc m.phase) m.phase (omega arith)
  keep {m} pc i (waiting k) inv at (wake lt) = record {
    counted =
        let e : absent m.phase (waiting k) ≡ 1 = absent_before m.phase k lt in
        omega (
          arith,
          total-update (absent m.phase) workers pc i li (working (suc k)),
          ap (absent m.phase) at,
          e,
          inv.counted,
        );
    not_all = inv.not_all;
    fits =
        updated-Fits m.phase pc i (working (suc k)) (at_phase, in_rounds)
          (λ j lj ne. inv.fits j lj);
    few = still_few inv i (working (suc k)) li;
  }
    where
      li : i < workers
      li = started (waiting k) inv i at (wake lt)

      in_rounds : suc k ≤ rounds
      in_rounds = (subst (Fits m.phase) at (inv.fits i li)).1

      at_phase : suc k ≡ m.phase
      at_phase = elim ((subst (Fits m.phase) at (inv.fits i li)).0) [
        | inl e ↦ absurd (omega arith)
        | inr e ↦ e
      ]

  start-Inv : 0 < workers → Inv (start workers rounds).mem (start workers rounds).pc
  start-Inv some_worker = record {
    counted = omega (
      arith,
      total-const (absent 0) workers (start workers rounds).pc 1
          (λ i lt. rw (lt→ltb i workers lt) refl),
    );
    not_all = some_worker;
    fits = λ i lt. rw (lt→ltb i workers lt) (refl, omega arith);
    few = λ i ge. rw (ltb_ge i workers ge);
  }

  pub reached :
      0 < workers
      → {t : System Barrier Pc} → Reach (Move workers rounds) (start workers rounds) t
      → Inv t.mem t.pc
  reached some_worker =
      Reach-invariant (Move workers rounds) Inv
        (λ m pc i m' p' inv mv. keep pc i (pc i) inv refl mv) (start-Inv some_worker)
