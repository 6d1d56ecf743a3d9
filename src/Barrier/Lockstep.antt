-- ===== src/Barrier/Lockstep.antt =====
-- The workers of barrier.cpp go from round to round together, and end.
use hse_multithreading_examp.Prelude.{
  ℕ, suc, ◌<◌, ◌≡◌, ◌≢◌, ◌⊎◌, inl, inr, refl, sym, ap, ◌∙◌, arith,
}
use mathlib.Core.Path.{subst}
use native.Mathlib.Decide.{dec_lt}
use hse_multithreading_examp.Threads.{System, Step, pick, Reach, total, le-total, has_share}
use hse_multithreading_examp.Barrier.{
  Barrier, Pc, working, waiting, Move, arrive, arrive_last, wake, start,
}
use hse_multithreading_examp.Barrier.Rounds.{
  absent, unfinished, absent_here, not_done, Fits, Inv, reached,
}

module _ (workers rounds : ℕ) where
  -- A worker that has not arrived goes on, and so does one that waits from the last phase.
  go_on :
      {m : Barrier} {pc : ℕ → Pc}
      → Inv workers rounds m pc
      → (i : ℕ) → i < workers
      → m.phase < rounds
      → (p : Pc) → pc i ≡ p
      → 0 < absent m.phase p
      → (m' : Barrier) × (p' : Pc) × Move workers rounds m p m' p'
  go_on {m} inv i li lt (working k) at h =
      let here : k ≡ m.phase = (subst (Fits workers rounds m.phase) at (inv.fits i li)).0 in
      elim (dec_lt (suc m.arrived) workers) [
        | yes more ↦ (_, _, arrive (omega arith) more)
        | no all ↦ (_, _, arrive_last (omega arith) (omega (arith, inv.not_all, all)))
      ]
  go_on {m} inv i li lt (waiting k) at h =
      elim ((subst (Fits workers rounds m.phase) at (inv.fits i li)).0) [
        | inl e ↦ absurd (omega (arith, absent_here m.phase k e))
        | inr e ↦ (_, _, wake (omega arith))
      ]

  step_of :
      {m : Barrier} {pc : ℕ → Pc} (i : ℕ)
      → (m' : Barrier) × (p' : Pc) × Move workers rounds m (pc i) m' p'
      → (u : System Barrier Pc) × Step (Move workers rounds) (record { mem = m; pc = pc }) u
  step_of i (m', p', mv) = (_, pick i mv)

  next :
      {m : Barrier} {pc : ℕ → Pc}
      → Inv workers rounds m pc
      → (i : ℕ) → i < workers
      → (p : Pc) → pc i ≡ p
      → 0 < unfinished rounds p
      → (u : System Barrier Pc) × Step (Move workers rounds) (record { mem = m; pc = pc }) u
  next {m} {pc} inv i li (working k) at h =
      let (here, le) = subst (Fits workers rounds m.phase) at (inv.fits i li) in
      let ne : k ≢ rounds = (λ e. not_done rounds k e h) in
      step_of i (
        subst (λ q. (m' : Barrier) × (p' : Pc) × Move workers rounds m q m' p') (sym at)
          (go_on inv i li (omega (arith, here, le, ne)) (working k) at (omega arith)))
  next {m} {pc} inv i li (waiting k) at h =
      let (place, lt) = subst (Fits workers rounds m.phase) at (inv.fits i li) in
      elim place [
        | inr before ↦ step_of i (
            subst (λ q. (m' : Barrier) × (p' : Pc) × Move workers rounds m q m' p') (sym at)
              (_, _, wake (omega arith)))
        | inl here ↦
            let (j, lj, some_absent) =
              has_share (absent m.phase) workers pc (omega (arith, inv.counted, inv.not_all)) in
            step_of j (go_on inv j lj (omega (arith, here, lt)) (pc j) refl some_absent)
      ]

  ended_of : (p : Pc) → unfinished rounds p ≡ 0 → p ≡ working rounds
  ended_of (working k) z = ap working (ground arith)
  ended_of (waiting k) z = absurd (omega arith)

-- Under any interleaving a worker that is in a round is in the round of the completed phases, of which the
-- completion function has printed one line each; every other worker is in the same round, or in the call
-- of `arrive_and_wait` at its end or at the end of the one before. So nobody starts a round before all
-- have arrived at the end of the one before.
pub in_lockstep :
    (workers rounds : ℕ) {t : System Barrier Pc} (i j k : ℕ)
    → i < workers
    → j < workers
    → Reach (Move workers rounds) (start workers rounds) t
    → t.pc i ≡ working k
    → (t.mem.phase ≡ k)
      × ((r : ℕ) → t.pc j ≡ working r → r ≡ k)
      × ((r : ℕ) → t.pc j ≡ waiting r → (r ≡ k) ⊎ (suc r ≡ k))
in_lockstep workers rounds {t} i j k li lj run at = (
  sym here,
  (λ r e. (subst (Fits workers rounds t.mem.phase) e (inv.fits j lj)).0 ∙ sym here),
  λ r e. elim ((subst (Fits workers rounds t.mem.phase) e (inv.fits j lj)).0) [
    | inl same ↦ inl (same ∙ sym here)
    | inr before ↦ inr (before ∙ sym here)
  ],
)
  where
    inv : Inv workers rounds t.mem t.pc
    inv = reached workers rounds (omega arith) run

    here : k ≡ t.mem.phase
    here = (subst (Fits workers rounds t.mem.phase) at (inv.fits i li)).0

-- And nobody waits for ever: in every reachable state all workers have ended, with every round's phase
-- completed, or some worker can take a step.
pub workers_go_on :
    (workers rounds : ℕ) {t : System Barrier Pc}
    → 0 < workers
    → Reach (Move workers rounds) (start workers rounds) t
    → (((i : ℕ) → i < workers → t.pc i ≡ working rounds) × (t.mem.phase ≡ rounds))
      ⊎ ((u : System Barrier Pc) × Step (Move workers rounds) t u)
workers_go_on workers rounds {t} some_worker run =
    elim (dec_lt 0 (total (unfinished rounds) workers t.pc)) [
      | yes more ↦
          let (i, lt, h) = has_share (unfinished rounds) workers t.pc more in
          inr (next workers rounds inv i lt (t.pc i) refl h)
      | no no_more ↦
          let all : (i : ℕ) → i < workers → t.pc i ≡ working rounds = λ i lt.
            ended_of workers rounds (t.pc i)
              (omega (arith, le-total (unfinished rounds) workers t.pc i lt, no_more)) in
          inl (
            all,
            sym (
                (subst (Fits workers rounds t.mem.phase) (all 0 some_worker)
                  (inv.fits 0 some_worker)).0),
          )
    ]
  where
    inv : Inv workers rounds t.mem t.pc
    inv = reached workers rounds some_worker run
