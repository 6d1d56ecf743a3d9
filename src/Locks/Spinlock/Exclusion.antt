-- ===== src/Locks/Spinlock/Exclusion.antt =====
-- Mutual exclusion, and no lost increment, under the Spinlock of
-- synchronization_primitives/mutex/spinlock.cpp.
use hse_multithreading_examp.Prelude.{
  ltb_ge, ◌⊎◌, ap, eqb_ne, ℕ, zero, suc, ◌+◌, ◌*◌, ◌≤◌, ◌<◌, ◌≡◌, ◌≢◌, refl, ◌∙◌, Bool, true, false,
  arith, update, ltb, Bool-cases, inl, inr, ◌==◌,
}
use native.Mathlib.Decide.{dec_lt}
use hse_multithreading_examp.Threads.{
  System, Reach, Reach-invariant, total, total-update, le-total, add-le-total, total-const,
}
use hse_multithreading_examp.Locks.Spinlock.{
  Shared, Pc, waiting, inside, loaded, leaving, Move, spin, enter, load, store, unlock, start,
}

-- Between the return of `lock` and the store of `unlock`.
abbrev pub holds : Pc → ℕ
holds (waiting n) = 0
holds _ = 1

-- The increments that a thread has still to make.
abbrev pub owes : Pc → ℕ
owes (waiting n) = n
owes (inside n) = n
owes (loaded n v) = n
owes (leaving zero) = 0
owes (leaving (suc n)) = n

-- A value that was read is still the counter's.
abbrev pub IsFresh : Shared → Pc → Type 0
IsFresh m (waiting n) = Unit
IsFresh m (inside n) = 0 < n
IsFresh m (loaded n v) = (m.x ≡ v) × (0 < n)
IsFresh m (leaving n) = 0 < n

abbrev flag : Bool → ℕ
flag true = 1
flag false = 0

-- `count` threads with `todo` increments in all.
pub record Inv (count todo : ℕ) (m : Shared) (pc : ℕ → Pc) : Type 0 where
  pub held : total holds count pc ≡ flag m.locked
  pub counted : m.x + total owes count pc ≡ todo
  pub fresh : (i : ℕ) → IsFresh m (pc i)
  pub few : (i : ℕ) → count ≤ i → pc i ≡ waiting 0

-- What a move does to the lock, the counter and its own thread.
record Effect (m m' : Shared) (p p' : Pc) : Type 0 where
  lock_share : flag m'.locked + holds p ≡ flag m.locked + holds p'
  debt_share : m'.x + owes p' ≡ m.x + owes p
  fresh_after : IsFresh m' p'
  started : p ≢ waiting 0

effect :
    {m m' : Shared} {p p' : Pc}
    → Move m p m' p'
    → IsFresh m p
    → holds p ≤ flag m.locked
    → flag m.locked ≤ 1
    → Effect m m' p p'
effect (spin e) f h k = record {
  lock_share = ground arith;
  debt_share = refl;
  fresh_after = tt;
  started = ground arith;
}
effect (enter e) f h k = record {
  lock_share = ground arith;
  debt_share = refl;
  fresh_after = omega arith;
  started = ground arith;
}
effect load f h k = record {
  lock_share = refl;
  debt_share = refl;
  fresh_after = (refl, f);
  started = λ e. cc;
}
effect (store {n = zero} {v = v}) f h k = absurd (omega arith)
effect (store {n = suc n} {v = v}) f h k = record {
  lock_share = refl;
  debt_share = omega arith;
  fresh_after = f.1;
  started = λ e. cc;
}
effect unlock f h k = record {
  lock_share = omega arith;
  debt_share = refl;
  fresh_after = tt;
  started = λ e. cc;
}

flag-le : (b : Bool) → flag b ≤ 1
flag-le true = omega arith
flag-le false = omega arith

-- What a thread knows depends on the counter alone.
same_x : (m m' : Shared) (q : Pc) → m'.x ≡ m.x → IsFresh m q → IsFresh m' q
same_x m m' (waiting n) e f = tt
same_x m m' (inside n) e f = f
same_x m m' (loaded n v) e f = (e ∙ f.0, f.1)
same_x m m' (leaving n) e f = f

outside_fresh : (m : Shared) (q : Pc) → holds q ≡ 0 → IsFresh m q
outside_fresh m (waiting n) h = tt
outside_fresh m (inside n) h = absurd (omega arith)
outside_fresh m (loaded n v) h = absurd (omega arith)
outside_fresh m (leaving n) h = absurd (omega arith)

-- A thread that is outside whenever the mover is inside knows as much after the move as before.
others_fresh :
    {m m' : Shared} {p p' : Pc} (q : Pc)
    → Move m p m' p'
    → (holds p ≡ 1 → holds q ≡ 0)
    → IsFresh m q
    → IsFresh m' q
others_fresh {m} q (spin e) apart f = same_x m (record m { locked = true }) q refl f
others_fresh {m} q (enter e) apart f = same_x m (record m { locked = true }) q refl f
others_fresh q load apart f = f
others_fresh {m} q (store {v = v}) apart f = outside_fresh (record m { x = v + 1 }) q (apart refl)
others_fresh {m} q unlock apart f = same_x m (record m { locked = false }) q refl f

module _ (count todo : ℕ) {m : Shared} {pc : ℕ → Pc} (inv : Inv count todo m pc) where
  holder_started : (i : ℕ) → holds (pc i) ≡ 1 → i < count
  holder_started i h = elim (dec_lt i count) [
    | yes lt ↦ lt
    | no ge ↦
        let e : pc i ≡ waiting 0 = inv.few i (omega arith) in absurd (omega (arith, ap holds e))
  ]

  -- A thread that holds the lock is alone in that.
  pub alone : (i j : ℕ) → holds (pc i) ≡ 1 → holds (pc j) ≡ 1 → i ≡ j
  alone i j hi hj = elim (dec_lt i j) [
    | yes lt ↦ absurd (
        omega (
          arith,
          add-le-total holds count pc i j lt (holder_started j hj),
          inv.held,
          flag-le m.locked,
        ))
    | no ge ↦ elim (dec_lt j i) [
      | yes lt ↦ absurd (
          omega (
            arith,
            add-le-total holds count pc j i lt (holder_started i hi),
            inv.held,
            flag-le m.locked,
          ))
      | no le ↦ omega arith
    ]
  ]

  holds-le : (i : ℕ) → holds (pc i) ≤ flag m.locked
  holds-le i = elim (dec_lt i count) [
    | yes lt ↦ omega (arith, le-total holds count pc i lt, inv.held)
    | no ge ↦ let e : pc i ≡ waiting 0 = inv.few i (omega arith) in omega (arith, ap holds e)
  ]

  holds_cases : (p : Pc) → (holds p ≡ 0) ⊎ (holds p ≡ 1)
  holds_cases (waiting n) = inl refl
  holds_cases _ = inr refl

  apart : (i j : ℕ) → i ≢ j → holds (pc i) ≡ 1 → holds (pc j) ≡ 0
  apart i j ne hi = elim (holds_cases (pc j)) [
    | inl free ↦ free
    | inr hj ↦ absurd (ne (alone i j hi hj))
  ]

  pub keep :
      (i : ℕ) (m' : Shared) (p' : Pc) → Move m (pc i) m' p' → Inv count todo m' (update pc i p')
  keep i m' p' mv = record {
    held = omega (arith, total-update holds count pc i started p', e.lock_share, inv.held);
    counted = omega (arith, total-update owes count pc i started p', e.debt_share, inv.counted);
    fresh = λ j. elim (Bool-cases (i == j)) [
      | inl same ↦ rw same e.fresh_after
      | inr other ↦ rw other (others_fresh (pc j) mv (apart i j (ground arith)) (inv.fresh j))
    ];
    few = λ j ge. rw (eqb_ne i j (omega (arith, started))) (inv.few j ge);
  }
    where
      e : Effect m m' (pc i) p'
      e = effect mv (inv.fresh i) (holds-le i) (flag-le m.locked)

      started : i < count
      started = elim (dec_lt i count) [
        | yes lt ↦ lt
        | no ge ↦ absurd (e.started (inv.few i (omega arith)))
      ]

-- What `start` sets up.
start-Inv :
    (count rounds : ℕ) → Inv count (count * rounds) (start count rounds).mem (start count rounds).pc
start-Inv count rounds = record {
  held = omega (arith, total-const holds count (start count rounds).pc 0 (λ i lt. ground arith));
  counted =
      omega (arith, total-const owes count (start count rounds).pc rounds (λ i lt. ground arith));
  fresh = λ i. elim (Bool-cases (ltb i count)) [ inl e ↦ rw e tt | inr e ↦ rw e tt ];
  few = λ i ge. rw (ltb_ge i count ge);
}

reached :
    (count rounds : ℕ) {t : System Shared Pc}
    → Reach Move (start count rounds) t
    → Inv count (count * rounds) t.mem t.pc
reached count rounds =
    Reach-invariant Move (Inv count (count * rounds))
      (λ m pc i m' p' inv mv. keep count (count * rounds) inv i m' p' mv) (start-Inv count rounds)

-- With any number of threads and rounds, in every reachable state at most one thread is between
-- the return of `lock` and the store of `unlock`.
pub mutual_exclusion :
    (count rounds : ℕ) {t : System Shared Pc}
    → Reach Move (start count rounds) t
    → (i j : ℕ) → holds (t.pc i) ≡ 1
    → holds (t.pc j) ≡ 1
    → i ≡ j
mutual_exclusion count rounds r = alone count (count * rounds) (reached count rounds r)

-- No increment is lost: in every reachable state in which all threads have finished, `x` is the
-- number of threads times the number of rounds, 2000 for the source's two threads.
pub no_lost_increment :
    (count rounds : ℕ) {t : System Shared Pc}
    → Reach Move (start count rounds) t
    → ((i : ℕ) → i < count → t.pc i ≡ waiting 0)
    → t.mem.x ≡ count * rounds
no_lost_increment count rounds {t} r finished = omega (
  arith,
  (reached count rounds r).counted,
  total-const owes count t.pc 0 (λ i lt. ap owes (finished i lt)),
)
