-- ===== src/Atomics/Race.antt =====
-- synchronization_primitives/atomics/race_condition.cpp: threads that test an atomic int and then
-- decrement it, one access a step.
use hse_multithreading_examp.Prelude.{
  zero, sym, ap, ◌∙◌, ltb_ge, ◌+◌, ◌*◌, ◌-◌, ◌^◌, ◌%◌, ◌<◌, ◌≤◌, ◌≡◌, ◌≢◌, ℕ, suc, refl, arith, ltb,
  if◌then◌else◌, update, eqb_ne, true, false,
}
use native.Mathlib.Decide.{dec_lt}
use hse_multithreading_examp.Threads.{
  System, Reach, Reach-invariant, here, later, pick, total, total-update, total-const,
}
use hse_multithreading_examp.Atomics.Cas.{is_positive, minus_100}

-- Where a thread of `decrement` stands.
pub data Pc : Type 0 where
  testing : Pc
  subtracting : Pc
  done : Pc

pub data Move (x : ℕ) : Pc → ℕ → Pc → Type 0 where
  pass : is_positive x ≡ true → Move x testing x subtracting
  skip : is_positive x ≡ false → Move x testing x done
  subtract : Move x subtracting (minus_100 x) done

-- `count` threads on an int of 100; the source has two.
abbrev pub start : ℕ → System ℕ Pc
start count = record { mem = 100; pc = λ i. if ltb i count then testing else done }

abbrev is_done : Pc → ℕ
is_done done = 1
is_done _ = 0

abbrev pub after : ℕ → ℕ
after taken = (100 + taken * (2 ^ 32 - 100)) % 2 ^ 32

true-ne : true ≢ false
true-ne e = cc

-- `taken` threads have subtracted; nobody gave up before the first of them.
record Inv (count : ℕ) (x : ℕ) (pc : ℕ → Pc) : Type 0 where
  taken : ℕ
  value : x ≡ after taken
  some_done : taken ≤ total is_done count pc
  first_done : 0 < total is_done count pc → 0 < taken
  few : (i : ℕ) → count ≤ i → pc i ≡ done

module _ (count : ℕ) {x : ℕ} {pc : ℕ → Pc} (inv : Inv count x pc) (i : ℕ)
    (working : is_done (pc i) ≡ 0) where
  started : i < count
  started = elim (dec_lt i count) [
    | yes lt ↦ lt
    | no ge ↦ absurd (omega (arith, working, ap is_done (inv.few i (omega arith))))
  ]

  still_few : (p' : Pc) (j : ℕ) → count ≤ j → update pc i p' j ≡ done
  still_few p' j ge = rw (eqb_ne i j (omega (arith, started))) (inv.few j ge)

  moved : (p' : Pc) → total is_done count (update pc i p') ≡ total is_done count pc + is_done p'
  moved p' = omega (arith, total-update is_done count pc i started p', working)

-- The value when none or one more has been taken.
after-zero : is_positive (after 0) ≡ true
unfolding is_positive
after-zero = refl

after-suc : (k : ℕ) → minus_100 (after k) ≡ after (suc k)
unfolding minus_100
after-suc k = omega arith

keep :
    (count : ℕ) {x x' : ℕ} (pc : ℕ → Pc) (i : ℕ) {p p' : Pc}
    → Inv count x pc
    → pc i ≡ p
    → Move x p x' p'
    → Inv count x' (update pc i p')
keep count {x} pc i inv at (pass e) = record {
  taken = inv.taken;
  value = inv.value;
  some_done = omega (arith, moved count inv i (ap is_done at) subtracting, inv.some_done);
  first_done =
      λ h. inv.first_done (omega (arith, moved count inv i (ap is_done at) subtracting, h));
  few = still_few count inv i (ap is_done at) subtracting;
}
keep count {x} pc i inv at (skip e) = record {
  taken = inv.taken;
  value = inv.value;
  some_done = omega (arith, moved count inv i (ap is_done at) done, inv.some_done);
  first_done = λ h. positive (inv.taken) inv.value;
  few = still_few count inv i (ap is_done at) done;
}
  where
    positive : (k : ℕ) → x ≡ after k → 0 < k
    positive zero v = absurd (true-ne (sym after-zero ∙ ap is_positive (sym v) ∙ e))
    positive (suc k) v = omega arith
keep count {x} pc i inv at subtract = record {
  taken = suc inv.taken;
  value = ap minus_100 inv.value ∙ after-suc inv.taken;
  some_done = omega (arith, moved count inv i (ap is_done at) done, inv.some_done);
  first_done = λ h. omega arith;
  few = still_few count inv i (ap is_done at) done;
}

start-Inv : (count : ℕ) → Inv count (start count).mem (start count).pc
start-Inv count = record {
  taken = 0;
  value = refl;
  some_done = omega arith;
  first_done = λ h.
      absurd
        (omega (arith, h, total-const is_done count (start count).pc 0 (λ i lt. ground arith)));
  few = λ i ge. rw (ltb_ge i count ge);
}

-- When all of at least one threads have finished, 100 was taken off once or more often, up to once a
-- thread: the test is no guard against the others. `x` is an int modulo 2 ^ 32.
pub race_outcomes :
    (count : ℕ) {t : System ℕ Pc}
    → 0 < count
    → Reach Move (start count) t
    → ((i : ℕ) → i < count → t.pc i ≡ done)
    → (taken : ℕ) × (0 < taken) × (taken ≤ count) × (t.mem ≡ after taken)
race_outcomes count {t} some_thread r finished = (
  inv.taken,
  inv.first_done (omega (arith, all_done)),
  omega (arith, inv.some_done, all_done),
  inv.value,
)
  where
    inv : Inv count t.mem t.pc
    inv =
        Reach-invariant Move (Inv count) (λ m pc i m' p' inv mv. keep count pc i inv refl mv)
          (start-Inv count) r

    all_done : total is_done count t.pc ≡ count * 1
    all_done = total-const is_done count t.pc 1 (λ i lt. ap is_done (finished i lt))

-- The source's two threads can end with -100, both past the test, and can end with 0.
pub both_outcomes :
    ((t : System ℕ Pc) × Reach Move (start 2) t
      × (t.pc 0 ≡ done)
      × (t.pc 1 ≡ done)
      × (t.mem ≡ 2 ^ 32 - 100))
    × ((t : System ℕ Pc) × Reach Move (start 2) t × (t.pc 0 ≡ done) × (t.pc 1 ≡ done) × (t.mem ≡ 0))
unfolding is_positive minus_100
both_outcomes = (
  (
    _,
    later (later (later (later here (pick 0 (pass refl))) (pick 1 (pass refl))) (pick 0 subtract))
        (pick 1 subtract),
    refl,
    refl,
    refl,
  ),
  (
    _,
    later (later (later here (pick 0 (pass refl))) (pick 0 subtract)) (pick 1 (skip refl)),
    refl,
    refl,
    refl,
  ),
)
