-- ===== src/Atomics/LostUpdates.antt =====
-- synchronization_primitives/sync_intro/data_race.cpp: threads that increment a plain int, which has no
-- defined meaning in C++; here `++x` is what it usually compiles to, a load and a store.
use hse_multithreading_examp.Prelude.{
  inr, inl, ltb_ge, ◌+◌, ◌*◌, ◌<◌, ◌≤◌, ◌≡◌, ◌≢◌, ◌∙◌, ap, sym, ℕ, zero, suc, refl, arith, ltb,
  if◌then◌else◌, update, eqb_ne, update_ne, update_self, ◌==◌, Bool-cases,
}
use mathlib.Core.Path.{subst}
use native.Mathlib.Decide.{dec_lt}
use hse_multithreading_examp.Threads.{
  System, Step, Reach, Reach-invariant, here, later, pick, total, total-update, total-const,
}

-- A thread of `increment` with the rounds that are left, and with the value that it has loaded.
pub data Pc : Type 0 where
  ready : (rounds : ℕ) → Pc
  loaded : (rounds : ℕ) (value : ℕ) → Pc

pub data Move (x : ℕ) : Pc → ℕ → Pc → Type 0 where
  load : {n : ℕ} → Move x (ready (suc n)) x (loaded n x)
  store : {n v : ℕ} → Move x (loaded n v) (v + 1) (ready n)

-- `count` threads with `rounds` rounds each. The source has two with 1000.
abbrev pub start : ℕ → ℕ → System ℕ Pc
start count rounds = record { mem = 0; pc = λ i. if ltb i count then ready rounds else ready 0 }

-- A thread takes its next step.
go :
    (s : System ℕ Pc) (i : ℕ) (p : Pc) {x' : ℕ} (p' : Pc)
    → s.pc i ≡ p
    → Move s.mem p x' p'
    → Step Move s (record { mem = x'; pc = update s.pc i p' })
go s i p {x'} p' e mv = pick i (subst (λ q. Move s.mem q x' p') (sym e) mv)

-- A thread takes `k` whole rounds while the others stand still.
rounds_alone :
    (k n : ℕ) (s r : System ℕ Pc) (i : ℕ)
    → Reach Move s r
    → r.pc i ≡ ready (k + n)
    → (t : System ℕ Pc) × Reach Move s t × (t.pc i ≡ ready n) × ((j : ℕ) → i ≢ j → t.pc j ≡ r.pc j)
rounds_alone zero n s r i run e = (r, run, e ∙ ap ready (omega arith), λ j ne. refl)
rounds_alone (suc k) n s r i run e =
    let r1 : System ℕ Pc = record { mem = r.mem; pc = update r.pc i (loaded (k + n) r.mem) } in
    let r2 : System ℕ Pc = record { mem = r.mem + 1; pc = update r1.pc i (ready (k + n)) } in
    let run2 : Reach Move s r2 =
      later
        (later run
          (go r i (ready (suc (k + n))) (loaded (k + n) r.mem) (e ∙ ap ready (omega arith)) load))
        (go r1 i (loaded (k + n) r.mem) (ready (k + n)) (update_self r.pc i (loaded (k + n) r.mem))
          store) in
    let (t, run', at, others) =
      rounds_alone k n s r2 i run2 (update_self r1.pc i (ready (k + n))) in
    (
      t,
      run',
      at,
      λ j ne.
          others j ne
          ∙ update_ne r1.pc i (ready (k + n)) j ne
          ∙ update_ne r.pc i (loaded (k + n) r.mem) j ne,
    )

-- With two rounds or more, two threads can end with an `x` of 2, however many rounds they have.
pub lost_updates :
    (n : ℕ)
    → (t : System ℕ Pc) × Reach Move (start 2 (suc (suc n))) t
      × (t.pc 0 ≡ ready 0)
      × (t.pc 1 ≡ ready 0)
      × (t.mem ≡ 2)
lost_updates n =
    let s : System ℕ Pc = start 2 (suc (suc n)) in
    let s1 : System ℕ Pc = record { mem = 0; pc = update s.pc 0 (loaded (suc n) 0) } in
    let (a, run_a, a1, a0) =
      rounds_alone (suc n) 1 s s1 1 (later here (pick 0 load)) (ap ready (omega arith)) in
    let b : System ℕ Pc = record { mem = 1; pc = update a.pc 0 (ready (suc n)) } in
    let run_b : Reach Move s b =
      later run_a (go a 0 (loaded (suc n) 0) (ready (suc n)) (a0 0 (omega arith)) store) in
    let c : System ℕ Pc = record { mem = 1; pc = update b.pc 1 (loaded 0 1) } in
    let run_c : Reach Move s c = later run_b (go b 1 (ready 1) (loaded 0 1) a1 load) in
    let (d, run_d, d0, d1) = rounds_alone (suc n) 0 s c 0 run_c (ap ready (omega arith)) in
    (
      record { mem = 2; pc = update d.pc 1 (ready 0) },
      later run_d (go d 1 (loaded 0 1) (ready 0) (d1 1 (omega arith)) store),
      d0,
      refl,
      refl,
    )

-- The increments that a thread has still to make.
abbrev owes : Pc → ℕ
owes (ready n) = n
owes (loaded n v) = suc n

abbrev seen : Pc → ℕ
seen (ready n) = 0
seen (loaded n v) = v

record Inv (count todo : ℕ) (x : ℕ) (pc : ℕ → Pc) : Type 0 where
  stores : ℕ
  budget : stores + total owes count pc ≡ todo
  value : x ≤ stores
  values : (i : ℕ) → seen (pc i) ≤ stores
  few : (i : ℕ) → count ≤ i → owes (pc i) ≡ 0

keep :
    (count todo : ℕ) {x x' : ℕ} (pc : ℕ → Pc) (i : ℕ) {p p' : Pc}
    → Inv count todo x pc
    → pc i ≡ p
    → Move x p x' p'
    → Inv count todo x' (update pc i p')
keep count todo {x} pc i inv at (load {n = n}) = record {
  stores = inv.stores;
  budget = omega (arith, total-update owes count pc i started (loaded n x), ap owes at, inv.budget);
  value = inv.value;
  values = λ j. elim (Bool-cases (i == j)) [
    | inl same ↦ rw same inv.value
    | inr other ↦ rw other (inv.values j)
  ];
  few = λ j ge. rw (eqb_ne i j (omega (arith, started))) (inv.few j ge);
}
  where
    started : i < count
    started = elim (dec_lt i count) [
      | yes lt ↦ lt
      | no ge ↦ absurd (omega (arith, ap owes at, inv.few i (omega arith)))
    ]
keep count todo {x} pc i inv at (store {n = n} {v = v}) = record {
  stores = suc inv.stores;
  budget = omega (arith, total-update owes count pc i started (ready n), ap owes at, inv.budget);
  value = omega (arith, ap seen at, inv.values i);
  values = λ j. elim (Bool-cases (i == j)) [
    | inl same ↦ rw same (omega arith)
    | inr other ↦ rw other (omega (arith, inv.values j))
  ];
  few = λ j ge. rw (eqb_ne i j (omega (arith, started))) (inv.few j ge);
}
  where
    started : i < count
    started = elim (dec_lt i count) [
      | yes lt ↦ lt
      | no ge ↦ absurd (omega (arith, ap owes at, inv.few i (omega arith)))
    ]

start-Inv :
    (count rounds : ℕ) → Inv count (count * rounds) (start count rounds).mem (start count rounds).pc
start-Inv count rounds = record {
  stores = 0;
  budget =
      omega (arith, total-const owes count (start count rounds).pc rounds (λ i lt. ground arith));
  value = omega arith;
  values = λ i. elim (Bool-cases (ltb i count)) [
    | inl e ↦ rw e (omega arith)
    | inr e ↦ rw e (omega arith)
  ];
  few = λ i ge. rw (ltb_ge i count ge);
}

-- `x` is never more than the number of threads times the number of rounds.
pub sum_bound :
    (count rounds : ℕ) {t : System ℕ Pc}
    → Reach Move (start count rounds) t
    → t.mem ≤ count * rounds
sum_bound count rounds {t} r = omega (arith, inv.value, inv.budget)
  where
    inv : Inv count (count * rounds) t.mem t.pc
    inv =
        Reach-invariant Move (Inv count (count * rounds))
          (λ m pc i m' p' inv mv. keep count (count * rounds) pc i inv refl mv)
          (start-Inv count rounds) r
