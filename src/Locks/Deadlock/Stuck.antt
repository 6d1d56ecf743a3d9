-- ===== src/Locks/Deadlock/Stuck.antt =====
-- Deadlock of synchronization_primitives/mutex/deadlock.cpp can stop for ever.
use mathlib.Core.Path.{subst}
use hse_multithreading_examp.Prelude.{
  sym, eqb_ne, ℕ, ◌≡◌, ◌≢◌, refl, Bool, true, false, arith, update, Bool-cases, inl, inr, ◌==◌,
}
use hse_multithreading_examp.Threads.{System, Reach, Reach-invariant, here, later, pick}
use hse_multithreading_examp.Locks.Deadlock.{
  Mutexes, first, second, both, half, done, Pc, at, Move, lock_first, lock_second, unlock_second,
  unlock_first,
}

-- At a guard, or at the end.
abbrev pub is_waiting : Pc → Bool
is_waiting (at s first) = true
is_waiting (at s second) = true
is_waiting (at s both) = false
is_waiting (at s half) = false
is_waiting (at s done) = true

-- Nobody else unlocks a mutex that the thread waits for.
no_move :
    {m m' : Mutexes} {p p' : Pc} → Move m p m' p' → m.m1 ≡ true → m.m2 ≡ true → is_waiting p ≢ true
no_move (lock_first {s = false} free) l1 l2 w = ground arith
no_move (lock_first {s = true} free) l1 l2 w = ground arith
no_move (lock_second {s = false} free) l1 l2 w = ground arith
no_move (lock_second {s = true} free) l1 l2 w = ground arith
no_move unlock_second l1 l2 w = ground arith
no_move unlock_first l1 l2 w = ground arith

-- Both mutexes are locked, and no thread is behind its second guard.
abbrev IsStuck : Mutexes → (ℕ → Pc) → Type 0
IsStuck m pc = (m.m1 ≡ true) × (m.m2 ≡ true) × ((k : ℕ) → is_waiting (pc k) ≡ true)

stuck_stays :
    (P : (ℕ → Pc) → Type 0) {s u : System Mutexes Pc}
    → IsStuck s.mem s.pc
    → P s.pc
    → Reach Move s u
    → P u.pc
stuck_stays P stuck holds r =
    (Reach-invariant Move (λ m pc. IsStuck m pc × P pc)
      (λ m pc i m' p' inv mv. absurd (no_move mv inv.0.0 inv.0.1 (inv.0.2 i))) (stuck, holds) r).1

update-waiting :
    (pc : ℕ → Pc) (i : ℕ) (p : Pc)
    → ((k : ℕ) → is_waiting (pc k) ≡ true)
    → is_waiting p ≡ true
    → (k : ℕ) → is_waiting (update pc i p k) ≡ true
update-waiting pc i p all w k = elim (Bool-cases (i == k)) [
  | inl same ↦ rw same w
  | inr other ↦ rw other (all k)
]

-- From free mutexes, with one thread about to take `m1` first, another about to take `m2` first and
-- none behind its second guard, there is a reachable state from which on, whatever happens, both
-- wait for their second mutex.
pub stuck_for_ever :
    (pc : ℕ → Pc) (i j : ℕ)
    → i ≢ j
    → pc i ≡ at false first
    → pc j ≡ at true first
    → ((k : ℕ) → is_waiting (pc k) ≡ true)
    → (t : System Mutexes Pc) × Reach Move
        (record { mem = record { m1 = false; m2 = false }; pc = pc })
        t
      × ((u : System Mutexes Pc)
          → Reach Move t u
          → (u.pc i ≡ at false second) × (u.pc j ≡ at true second))
stuck_for_ever pc i j ne ei ej waiting = (
  _,
  later
      (later here
        (pick i (subst (λ p. Move free p locked (at false second)) (sym ei) (lock_first refl))))
      (pick j
        (subst (λ p. Move locked p all_locked (at true second)) (sym moved_j) (lock_first refl))),
  (λ u r.
      stuck_stays (λ q. (q i ≡ at false second) × (q j ≡ at true second))
        (
          refl,
          refl,
          update-waiting (update pc i (at false second)) j (at true second)
              (update-waiting pc i (at false second) waiting refl) refl,
        )
        (at_i, at_j) r),
)
  where
    free : Mutexes
    free = record { m1 = false; m2 = false }

    locked : Mutexes
    locked = record { m1 = true; m2 = false }

    all_locked : Mutexes
    all_locked = record { m1 = true; m2 = true }

    moved_j : update pc i (at false second) j ≡ at true first
    moved_j = rw (eqb_ne i j ne) ej

    at_i : update (update pc i (at false second)) j (at true second) i ≡ at false second
    at_i =
        let e : (j == i) ≡ false = eqb_ne j i (λ e. ne (sym e)) in
        let f : (i == i) ≡ true = ground arith in rw (e, f)

    at_j : update (update pc i (at false second)) j (at true second) j ≡ at true second
    at_j = let f : (j == j) ≡ true = ground arith in rw f
