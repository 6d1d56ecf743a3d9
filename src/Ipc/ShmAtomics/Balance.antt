-- ===== src/Ipc/ShmAtomics/Balance.antt =====
-- What the loops of ipc/shm_atomics.cpp leave behind.
use hse_multithreading_examp.Prelude.{
  length, zero, suc, lt→ltb, ap, eqb_ne, ℕ, ◌+◌, ◌≤◌, ◌<◌, ◌≡◌, ◌≢◌, refl, true, some, List, arith,
  update, Bool-cases, inl, inr, ◌==◌,
}
use mathlib.Core.Path.{subst}
use native.Mathlib.Decide.{dec_lt}
use hse_multithreading_examp.Threads.{System, Reach, Reach-invariant, total, total-update}
use hse_multithreading_examp.LockFree.ArrayStack
use hse_multithreading_examp.LockFree.ArrayStack.{Stack, idle, out_of_bounds}
use hse_multithreading_examp.LockFree.ArrayStack.Bounds.{InRange, Move-InRange}
use hse_multithreading_examp.Ipc.ShmAtomics.{
  Pc, producing, consuming, Move, push_call, push_step, push_again, push_next, pop_call, pop_step,
  pop_again, pop_next, start, is_called,
}

-- What a call has added to `m_head`, and what it has taken off.
abbrev pub gain : ArrayStack.Pc ℕ → ℕ
gain (ArrayStack.Pc.push_write value top) = 1
gain (ArrayStack.Pc.pushed done) = done
gain _ = 0

abbrev pub loss : ArrayStack.Pc ℕ → ℕ
loss (ArrayStack.Pc.pop_read top) = 1
loss (ArrayStack.Pc.popped (some v)) = 1
loss _ = 0

-- The pushes and the pops that a process has done.
abbrev pub put_in : Pc → ℕ
put_in (producing i call) = i + gain call
put_in (consuming n call) = gain call

abbrev pub taken_out : Pc → ℕ
taken_out (producing i call) = loss call
taken_out (consuming n call) = n + loss call

abbrev pub call_of : Pc → ArrayStack.Pc ℕ
call_of (producing i call) = call
call_of (consuming n call) = call

call_balance :
    {capacity : ℕ} {s s' : Stack ℕ} {p p' : ArrayStack.Pc ℕ}
    → ArrayStack.Move capacity 0 s p s' p'
    → is_called p ≡ true
    → InRange capacity p
    → s'.head + loss p' + gain p ≡ s.head + loss p + gain p'
call_balance (ArrayStack.Move.start_push v) c r = absurd (ground arith)
call_balance ArrayStack.Move.start_pop c r = absurd (ground arith)
call_balance ArrayStack.Move.load_for_push c r = omega arith
call_balance (ArrayStack.Move.full e) c r = omega arith
call_balance (ArrayStack.Move.claim ne e) c r = omega arith
call_balance (ArrayStack.Move.claim_fails ne) c r = omega arith
call_balance {capacity} (ArrayStack.Move.write {top = top}) c r =
    rw (lt→ltb top capacity r) (omega arith)
call_balance ArrayStack.Move.load_for_pop c r = omega arith
call_balance (ArrayStack.Move.empty e) c r = omega arith
call_balance (ArrayStack.Move.release ne e) c r = omega arith
call_balance (ArrayStack.Move.release_fails ne) c r = omega arith
call_balance (ArrayStack.Move.read {top = zero}) c r = absurd (r.0 refl)
call_balance {capacity} (ArrayStack.Move.read {top = suc i}) c r =
    rw (lt→ltb i capacity (let h = r.1 in omega arith)) (omega arith)
call_balance ArrayStack.Move.next_push c r = absurd (ground arith)
call_balance ArrayStack.Move.next_pop c r = absurd (ground arith)

move_balance :
    {elements capacity : ℕ} {s s' : Stack ℕ} {p p' : Pc}
    → Move elements capacity s p s' p'
    → InRange capacity (call_of p)
    → s'.head + taken_out p' + put_in p ≡ s.head + taken_out p + put_in p'
move_balance (push_call lt) r = refl
move_balance (push_step b mv) r = omega (arith, call_balance mv b r)
move_balance (push_again e) r = omega arith
move_balance (push_next e) r = omega arith
move_balance (pop_call lt) r = refl
move_balance (pop_step b mv) r = omega (arith, call_balance mv b r)
move_balance pop_again r = refl
move_balance pop_next r = omega arith

move_InRange :
    {elements capacity : ℕ} {s s' : Stack ℕ} {p p' : Pc}
    → Move elements capacity s p s' p'
    → length s.buffer ≡ capacity
    → s.head ≤ capacity
    → InRange capacity (call_of p)
    → (length s'.buffer ≡ capacity) × (s'.head ≤ capacity) × InRange capacity (call_of p')
move_InRange (push_call lt) l h r = (l, h, tt)
move_InRange {capacity = capacity} (push_step b mv) l h r = Move-InRange capacity 0 mv l h r
move_InRange (push_again e) l h r = (l, h, tt)
move_InRange (push_next e) l h r = (l, h, tt)
move_InRange (pop_call lt) l h r = (l, h, tt)
move_InRange {capacity = capacity} (pop_step b mv) l h r = Move-InRange capacity 0 mv l h r
move_InRange pop_again l h r = (l, h, tt)
move_InRange pop_next l h r = (l, h, tt)

ended_stays :
    {elements capacity : ℕ} {s s' : Stack ℕ} {p p' : Pc}
    → Move elements capacity s p s' p'
    → p ≢ producing elements idle
ended_stays (push_call lt) e = absurd (omega (arith, lt, ap put_in e))
ended_stays (push_step b mv) e = absurd (let c = ap (λ p. is_called (call_of p)) e in cc)
ended_stays (push_again z) e = absurd (let c = ap call_of e in cc)
ended_stays (push_next z) e = absurd (let c = ap call_of e in cc)
ended_stays (pop_call lt) e = cc
ended_stays (pop_step b mv) e = cc
ended_stays pop_again e = cc
ended_stays pop_next e = cc

record Inv (elements capacity : ℕ) (s : Stack ℕ) (pc : ℕ → Pc) : Type 0 where
  cells : length s.buffer ≡ capacity
  head_in : s.head ≤ capacity
  ranges : (i : ℕ) → InRange capacity (call_of (pc i))
  balanced : s.head + total taken_out 2 pc ≡ total put_in 2 pc
  few : (i : ℕ) → 2 ≤ i → pc i ≡ producing elements idle

keep :
    (elements capacity : ℕ) {s : Stack ℕ} {pc : ℕ → Pc}
    → Inv elements capacity s pc
    → (i : ℕ) (s' : Stack ℕ) (p' : Pc) → Move elements capacity s (pc i) s' p'
    → Inv elements capacity s' (update pc i p')
keep elements capacity {s} {pc} inv i s' p' mv = record {
  cells = after.0;
  head_in = after.1;
  ranges = λ j. elim (Bool-cases (i == j)) [
    | inl same ↦ rw same after.2
    | inr other ↦ rw other (inv.ranges j)
  ];
  balanced = omega (
    arith,
    total-update taken_out 2 pc i started p',
    total-update put_in 2 pc i started p',
    move_balance mv (inv.ranges i),
    inv.balanced,
  );
  few = λ j ge. rw (eqb_ne i j (omega (arith, started))) (inv.few j ge);
}
  where
    after : (length s'.buffer ≡ capacity) × (s'.head ≤ capacity) × InRange capacity (call_of p')
    after = move_InRange mv inv.cells inv.head_in (inv.ranges i)

    started : i < 2
    started = elim (dec_lt i 2) [
      | yes lt ↦ lt
      | no ge ↦ absurd (ended_stays mv (inv.few i (omega arith)))
    ]

start-Inv :
    (elements : ℕ) (buffer : List ℕ)
    → Inv elements (length buffer) (start elements buffer).mem (start elements buffer).pc
unfolding total
start-Inv elements buffer = record {
  cells = refl;
  head_in = omega arith;
  ranges = λ i. elim (Bool-cases (i == 0)) [
    | inl e ↦ rw e tt
    | inr e ↦ elim (Bool-cases (i == 1)) [ inl f ↦ rw (e, f) tt | inr f ↦ rw (e, f) tt ]
  ];
  balanced = refl;
  few = λ i ge. rw (eqb_ne i 0 (omega arith), eqb_ne i 1 (omega arith));
}

reached :
    (elements : ℕ) (buffer : List ℕ) {t : System (Stack ℕ) Pc}
    → Reach (Move elements (length buffer)) (start elements buffer) t
    → Inv elements (length buffer) t.mem t.pc
reached elements buffer r =
    Reach-invariant (Move elements (length buffer)) (Inv elements (length buffer))
      (λ s pc i s' p' inv mv. keep elements (length buffer) inv i s' p' mv)
      (start-Inv elements buffer) r

in_bounds : (capacity : ℕ) (p : ArrayStack.Pc ℕ) → InRange capacity p → p ≢ out_of_bounds
in_bounds capacity p r e = subst (InRange capacity) e r

-- Under any interleaving m_head stays within the capacity, no call has accessed the buffer outside its
-- cells, and the pushes of both processes together are their pops and what m_head counts.
pub processes_balance :
    (elements : ℕ) (buffer : List ℕ) {t : System (Stack ℕ) Pc}
    → Reach (Move elements (length buffer)) (start elements buffer) t
    → (t.mem.head ≤ length buffer)
      × ((i : ℕ) → call_of (t.pc i) ≢ out_of_bounds)
      × (t.mem.head + total taken_out 2 t.pc ≡ total put_in 2 t.pc)
processes_balance elements buffer {t} r = (
  (reached elements buffer r).head_in,
  λ i. in_bounds (length buffer) (call_of (t.pc i)) ((reached elements buffer r).ranges i),
  (reached elements buffer r).balanced,
)

-- When both processes have left their loops the stack is empty.
pub stack_emptied :
    (elements : ℕ) (buffer : List ℕ) {t : System (Stack ℕ) Pc}
    → Reach (Move elements (length buffer)) (start elements buffer) t
    → t.pc 0 ≡ producing elements idle
    → t.pc 1 ≡ consuming elements idle
    → t.mem.head ≡ 0
unfolding total
stack_emptied elements buffer r p c = omega (
  arith,
  (reached elements buffer r).balanced,
  ap put_in p,
  ap taken_out p,
  ap put_in c,
  ap taken_out c,
)
