-- ===== src/LockFree/ArrayStack/Bounds.antt =====
-- The count of BufferedLockFreeSPSCStack stays within the capacity, and no access to the buffer is
-- out of range, under any interleaving of any number of threads.
use hse_multithreading_examp.Prelude.{
  ◌∙◌, ℕ, zero, suc, refl, lt→ltb, List, ◌≢◌, ◌-◌, ◌≤◌, ◌<◌, ◌≡◌, arith, length, length-set, update,
  Bool-cases, inl, inr, ◌==◌,
}
use hse_multithreading_examp.Threads.{System, Reach, Reach-invariant}
use hse_multithreading_examp.LockFree.ArrayStack.{Stack, Pc, Move, after_write, after_read}

-- What a thread knows of the index that it holds.
abbrev pub InRange : {T : Type 0} → ℕ → Pc T → Type 0
InRange capacity (Pc.push_test value top) = top ≤ capacity
InRange capacity (Pc.push_write value top) = top < capacity
InRange capacity (Pc.pop_test top) = top ≤ capacity
InRange capacity (Pc.pop_read top) = (top ≢ 0) × (top - 1 < capacity)
InRange capacity Pc.out_of_bounds = ⊥
InRange capacity _ = Unit

pub record IsBounded {T : Type 0} (capacity : ℕ) (s : Stack T) (pc : ℕ → Pc T) : Type 0 where
  pub cells : length s.buffer ≡ capacity
  pub head_in : s.head ≤ capacity
  pub ranges : (i : ℕ) → InRange capacity (pc i)

module _ {T : Type 0} (capacity : ℕ) (blank : T) where
  after_write-InRange :
      (top : ℕ) → top < capacity → InRange {T = T} capacity (after_write {T = T} capacity blank top)
  after_write-InRange top lt = rw (lt→ltb top capacity lt) tt

  after_read-InRange :
      (buffer : List T) (top : ℕ)
      → InRange {T = T} capacity (Pc.pop_read top)
      → InRange {T = T} capacity (after_read capacity blank buffer top)
  after_read-InRange buffer zero (ne, lt) = absurd (ne refl)
  after_read-InRange buffer (suc i) (ne, lt) = rw (lt→ltb i capacity (omega arith)) tt

  -- What one step does to the stack and to the thread that takes it.
  pub Move-InRange :
      {s s' : Stack T} {p p' : Pc T}
      → Move capacity blank s p s' p'
      → length s.buffer ≡ capacity
      → s.head ≤ capacity
      → InRange capacity p
      → (length s'.buffer ≡ capacity) × (s'.head ≤ capacity) × InRange capacity p'
  Move-InRange (Move.start_push value) cells h r = (cells, h, tt)
  Move-InRange Move.start_pop cells h r = (cells, h, tt)
  Move-InRange Move.load_for_push cells h r = (cells, h, h)
  Move-InRange (Move.full e) cells h r = (cells, h, tt)
  Move-InRange (Move.claim ne e) cells h r = omega arith
  Move-InRange (Move.claim_fails ne) cells h r = (cells, h, tt)
  Move-InRange {s} (Move.write {value} {top}) cells h r =
      (length-set s.buffer top value ∙ cells, h, after_write-InRange top r)
  Move-InRange Move.load_for_pop cells h r = (cells, h, h)
  Move-InRange (Move.empty e) cells h r = (cells, h, tt)
  Move-InRange (Move.release ne e) cells h r = omega arith
  Move-InRange (Move.release_fails ne) cells h r = (cells, h, tt)
  Move-InRange {s} (Move.read {top}) cells h r = (cells, h, after_read-InRange s.buffer top r)
  Move-InRange Move.next_push cells h r = (cells, h, tt)
  Move-InRange Move.next_pop cells h r = (cells, h, tt)

  update-InRange :
      (pc : ℕ → Pc T) (i : ℕ) (p : Pc T)
      → ((j : ℕ) → InRange capacity (pc j))
      → InRange capacity p
      → (j : ℕ) → InRange capacity (update pc i p j)
  update-InRange pc i p all r j = elim (Bool-cases (i == j)) [
    | inl here ↦ rw here r
    | inr other ↦ rw other (all j)
  ]

  -- From an empty stack with `capacity` cells and threads that are idle, in every reachable state
  -- the count is at most the capacity, every thread that is about to write or read the buffer
  -- holds an index of a cell, and none has accessed it elsewhere.
  pub Reach-IsBounded :
      {s t : System (Stack T) (Pc T)}
      → length s.mem.buffer ≡ capacity
      → s.mem.head ≡ 0
      → ((i : ℕ) → s.pc i ≡ Pc.idle)
      → Reach (Move capacity blank) s t
      → IsBounded capacity t.mem t.pc
  Reach-IsBounded {s} cells zero_head all_idle =
      Reach-invariant (Move capacity blank) (IsBounded capacity)
        (λ m pc i m' p' inv mv.
          let (cells', head', range') = Move-InRange mv inv.cells inv.head_in (inv.ranges i) in
          record {
            cells = cells';
            head_in = head';
            ranges = update-InRange pc i p' inv.ranges range';
          })
        (record { cells = cells; head_in = omega arith; ranges = λ i. rw (all_idle i) tt })
