-- ===== src/LockFree/ArrayStack/Alone.antt =====
-- BufferedLockFreeSPSCStack, which lock_free/spsc_stack.cpp and ipc/shm_atomics.cpp have alike, used
-- by one thread at a time: the loops of Push and Pop end in their first round, and the two are the
-- operations of a bounded stack.
use hse_multithreading_examp.Prelude.{
  ℕ, zero, suc, ◌+◌, ◌-◌, ◌≤◌, ◌<◌, ◌≡◌, ◌≢◌, refl, Bool, true, false, Option, none, some, List, [],
  ◌∷◌, get_or, set, length, arith, ◌==◌, eqb_ne, if◌then◌else◌,
}
use hse_multithreading_examp.LockFree.ArrayStack.{Stack}

module _ {T : Type 0} (capacity : ℕ) (blank : T) where
  -- `Push` and `Pop` with no other thread at work.
  pub push : Stack T → T → Bool × Stack T
  push s value =
      if s.head == capacity
      then (false, s)
      else (true, record { head = s.head + 1; buffer = set s.buffer s.head value })

  pub pop : Stack T → Option T × Stack T
  pop s =
      if s.head == 0
      then (none, s)
      else (some (get_or s.buffer (s.head - 1) blank), record s { head = s.head - 1 })

  -- The `n` first cells, the last on top.
  pub cells : ℕ → List T → List T
  cells zero buffer = []
  cells (suc n) buffer = get_or buffer n blank ∷ cells n buffer

  pub contents : Stack T → List T
  contents s = cells s.head s.buffer

  get_or-set_other :
      (buffer : List T) (i j : ℕ) (v : T)
      → i ≢ j
      → get_or (set buffer i v) j blank ≡ get_or buffer j blank
  get_or-set_other [] i j v h = refl
  get_or-set_other (x ∷ xs) zero zero v h = absurd (h refl)
  get_or-set_other (x ∷ xs) zero (suc j) v h = refl
  get_or-set_other (x ∷ xs) (suc i) zero v h = refl
  get_or-set_other (x ∷ xs) (suc i) (suc j) v h = get_or-set_other xs i j v (omega arith)

  get_or-set_same :
      (buffer : List T) (i : ℕ) (v : T) → i < length buffer → get_or (set buffer i v) i blank ≡ v
  get_or-set_same [] i v h = absurd (omega arith)
  get_or-set_same (x ∷ xs) zero v h = refl
  get_or-set_same (x ∷ xs) (suc i) v h = get_or-set_same xs i v (omega arith)

  cells-set :
      (n : ℕ) (buffer : List T) (i : ℕ) (v : T) → n ≤ i → cells n (set buffer i v) ≡ cells n buffer
  unfolding cells
  cells-set zero buffer i v h = refl
  cells-set (suc n) buffer i v h =
      rw (get_or-set_other buffer i n v (omega arith), cells-set n buffer i v (omega arith))

  cells-push :
      (n : ℕ) (buffer : List T) (v : T)
      → n < length buffer
      → cells (n + 1) (set buffer n v) ≡ v ∷ cells n buffer
  unfolding cells
  cells-push n buffer v h =
      let e : n + 1 ≡ suc n = omega arith in
      rw (e, cells, get_or-set_same buffer n v h, cells-set n buffer n v (omega arith))

  cells-pop :
      (n : ℕ) (buffer : List T)
      → n ≢ 0
      → cells n buffer ≡ get_or buffer (n - 1) blank ∷ cells (n - 1) buffer
  unfolding cells
  cells-pop zero buffer h = absurd (h refl)
  cells-pop (suc n) buffer h = let e : suc n - 1 ≡ n = omega arith in rw e

  -- On a stack of `capacity` cells: Push is refused exactly when the stack is full, and otherwise
  -- puts the value on top; Pop returns nothing exactly when the stack is empty, and otherwise
  -- returns and removes the top.
  pub sequential_stack :
      (s : Stack T) (value : T)
      → length s.buffer ≡ capacity
      → s.head ≤ capacity
      → ((s.head ≡ capacity → push s value ≡ (false, s))
          × (s.head ≢ capacity
              → ((push s value).0 ≡ true) × (contents (push s value).1 ≡ value ∷ contents s)))
        × ((s.head ≡ 0 → pop s ≡ (none, s))
            × (s.head ≢ 0
                → (top : T) × ((pop s).0 ≡ some top) × (contents s ≡ top ∷ contents (pop s).1)))
  unfolding push pop contents
  sequential_stack s value cells_are bound = (
    (
      (λ e. let t : (s.head == capacity) ≡ true = ground arith in rw t),
      (λ ne. rw (eqb_ne s.head capacity ne) (refl, cells-push s.head s.buffer value (omega arith))),
    ),
    (
      (λ e. let t : (s.head == 0) ≡ true = ground arith in rw t),
      (λ ne.
          rw (eqb_ne s.head 0 ne)
            (get_or s.buffer (s.head - 1) blank, refl, cells-pop s.head s.buffer ne)),
    ),
  )
