-- ===== src/Atomics/Sum.antt =====
-- synchronization_primitives/atomics/data_race.cpp: threads that increment an atomic int.
use hse_multithreading_examp.Prelude.{
  ltb_ge, ◌+◌, ◌*◌, ◌^◌, ◌%◌, ◌<◌, ◌≤◌, ◌≡◌, ℕ, suc, refl, arith, ltb, if◌then◌else◌, update,
  eqb_ne,
}
use native.Mathlib.Decide.{dec_lt}
use hse_multithreading_examp.Threads.{
  System, Reach, Reach-invariant, total, total-update, total-const,
}

-- A thread of `increment` is the number of its rounds that are left; `++x` is one access, on an int
-- that wraps at 2 ^ 32.
pub data Move (x : ℕ) : ℕ → ℕ → ℕ → Type 0 where
  increment : {left : ℕ} → Move x (suc left) ((x + 1) % 2 ^ 32) left

-- `count` threads with `rounds` rounds each. The source starts two threads with 1000 rounds.
abbrev pub start : ℕ → ℕ → System ℕ ℕ
start count rounds = record { mem = 0; pc = λ i. if ltb i count then rounds else 0 }

abbrev rounds_left : ℕ → ℕ
rounds_left n = n

abbrev Inv : ℕ → ℕ → ℕ → (ℕ → ℕ) → Type 0
Inv count todo x pc = (x + total rounds_left count pc ≡ todo) × ((i : ℕ) → count ≤ i → pc i ≡ 0)

keep :
    (count todo : ℕ) {x x' : ℕ} (pc : ℕ → ℕ) (i : ℕ) {p p' : ℕ}
    → todo < 2 ^ 32
    → Inv count todo x pc
    → p ≡ pc i
    → Move x p x' p'
    → Inv count todo x' (update pc i p')
keep count todo {x} pc i {p' = p'} small inv at (increment {left = left}) =
    (omega (arith, moved, inv.0), λ j ge. rw (eqb_ne i j (omega (arith, started))) (inv.1 j ge))
  where
    started : i < count
    started = elim (dec_lt i count) [
      | yes lt ↦ lt
      | no ge ↦ absurd (omega (arith, inv.1 i (omega arith)))
    ]

    moved : total rounds_left count (update pc i left) + pc i ≡ total rounds_left count pc + left
    moved = omega (arith, total-update rounds_left count pc i started left)

-- No increment is lost: when all threads have finished, `x` is the number of threads times the
-- number of rounds, as long as that is below 2 ^ 32.
pub atomic_sum :
    (count rounds : ℕ) {t : System ℕ ℕ}
    → count * rounds < 2 ^ 32
    → Reach Move (start count rounds) t
    → ((i : ℕ) → i < count → t.pc i ≡ 0)
    → t.mem ≡ count * rounds
atomic_sum count rounds {t} small r finished =
    omega (arith, inv.0, total-const rounds_left count t.pc 0 finished)
  where
    inv : Inv count (count * rounds) t.mem t.pc
    inv =
        Reach-invariant Move (Inv count (count * rounds))
          (λ x pc i x' p' inv mv. keep count (count * rounds) pc i small inv refl mv)
          (
            omega (
              arith,
              total-const rounds_left count (start count rounds).pc rounds (λ i lt. ground arith),
            ),
            (λ i ge. rw (ltb_ge i count ge)),
          )
          r
