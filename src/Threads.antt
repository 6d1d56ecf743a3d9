-- ===== src/Threads.antt =====
-- Threads over shared memory, interleaved in any order: what a thread does in one step is given by
-- a relation `Move` between the memory and where the thread stands, before and after.
use native.Mathlib.Decide.{dec_lt}
use hse_multithreading_examp.Prelude.{
  ◌*◌, ℕ, ◌+◌, ◌≤◌, ◌<◌, ◌≡◌, refl, zero, suc, arith, update, Bool-cases, inl, inr, ◌==◌,
}

-- A thread is a number; those that a program does not start stand where nothing moves.
pub record System (Mem Pc : Type 0) : Type 0 where
  pub mem : Mem
  pub pc : ℕ → Pc

module _ {Mem Pc : Type 0} (Move : Mem → Pc → Mem → Pc → Type 0) where
  pub data Step (s : System Mem Pc) : System Mem Pc → Type 0 where
    pick :
        (i : ℕ) {m : Mem} {p : Pc}
        → Move s.mem (s.pc i) m p
        → Step s (record { mem = m; pc = update s.pc i p })

  pub data Reach (s : System Mem Pc) : System Mem Pc → Type 0 where
    here : Reach s s
    later : {t u : System Mem Pc} → Reach s t → Step t u → Reach s u

  -- How much of a weight the steps of a run have, by where the thread stood that took the step.
  unfoldable pub along : (Pc → ℕ) → {s t : System Mem Pc} → Reach s t → ℕ
  along w here = 0
  along w (later {t} r (pick i mv)) = w (t.pc i) + along w r

  -- What holds at the start and is kept by every move holds in every reachable state.
  pub Reach-invariant :
      (P : Mem → (ℕ → Pc) → Type 0)
      → ((m : Mem) (pc : ℕ → Pc) (i : ℕ) (m' : Mem) (p' : Pc)
          → P m pc
          → Move m (pc i) m' p'
          → P m' (update pc i p'))
      → {s t : System Mem Pc} → P s.mem s.pc
      → Reach s t
      → P t.mem t.pc
  Reach-invariant P keep start here = start
  Reach-invariant P keep start (later {t} r (pick i mv)) =
      keep t.mem t.pc i _ _ (Reach-invariant P keep start r) mv

-- The sum of what the threads below a bound have of a weight.
module _ {ℓ} {A : Type ℓ} (w : A → ℕ) where
  unfoldable pub total : ℕ → (ℕ → A) → ℕ
  total zero pc = 0
  total (suc k) pc = w (pc k) + total k pc

  -- A thread at the bound or above it has no share.
  pub total-beyond :
      (k : ℕ) (pc : ℕ → A) (mover : ℕ) (after : A)
      → k ≤ mover
      → total k (update pc mover after) ≡ total k pc
  unfolding total
  total-beyond zero pc mover after above = refl
  total-beyond (suc k) pc mover after above = ground (arith, total-beyond k pc mover after)

  -- A thread that moves takes its old share out of the sum and puts its new one in.
  pub total-update :
      (k : ℕ) (pc : ℕ → A) (mover : ℕ)
      → mover < k
      → (after : A) → w (pc mover) + total k (update pc mover after) ≡ w after + total k pc
  unfolding total
  total-update (suc k) pc mover below after = elim (Bool-cases (mover == k)) [
    | inl last ↦ ground (arith, total-beyond k pc mover after)
    | inr before ↦ ground (arith, total-update k pc mover (ground arith) after)
  ]
  total-update zero pc mover below after = absurd (omega arith)

  -- One thread's share is at most the sum.
  pub le-total : (n : ℕ) (f : ℕ → A) (i : ℕ) → i < n → w (f i) ≤ total n f
  unfolding total
  le-total zero f i h = absurd (omega arith)
  le-total (suc n) f i h = elim (Bool-cases (i == n)) [
    | inl last ↦ ground arith
    | inr before ↦ ground (arith, le-total n f i)
  ]

  -- So are the shares of two threads together.
  pub add-le-total : (n : ℕ) (f : ℕ → A) (i j : ℕ) → i < j → j < n → w (f i) + w (f j) ≤ total n f
  unfolding total
  add-le-total zero f i j h k = absurd (omega arith)
  add-le-total (suc n) f i j h k = elim (Bool-cases (j == n)) [
    | inl last ↦ ground (arith, le-total n f i)
    | inr before ↦ ground (arith, add-le-total n f i j)
  ]

  pub total-const :
      (n : ℕ) (f : ℕ → A) (c : ℕ) → ((i : ℕ) → i < n → w (f i) ≡ c) → total n f ≡ n * c
  unfolding total
  total-const zero f c h = omega arith
  total-const (suc n) f c h =
      omega (arith, h n (omega arith), total-const n f c (λ i lt. h i (omega arith)))

  -- A sum that is not 0 has a share that is not 0.
  pub has_share : (n : ℕ) (pc : ℕ → A) → 0 < total n pc → (i : ℕ) × (i < n) × (0 < w (pc i))
  unfolding total
  has_share zero pc some_share = absurd (omega arith)
  has_share (suc n) pc some_share = elim (dec_lt 0 (w (pc n))) [
    | yes found ↦ (n, omega arith, found)
    | no none ↦ let (i, lt, share) = has_share n pc (omega arith) in (i, omega arith, share)
  ]

-- Two sums with equal shares.
pub total-ext {ℓ ℓ'} :
    {A : Type ℓ} {B : Type ℓ'} (w : A → ℕ) (v : B → ℕ) (k : ℕ) (f : ℕ → A) (g : ℕ → B)
    → ((j : ℕ) → j < k → w (f j) ≡ v (g j))
    → total w k f ≡ total v k g
unfolding total
total-ext w v zero f g h = refl
total-ext w v (suc k) f g h =
    omega (arith, h k (omega arith), total-ext w v k f g (λ j lt. h j (omega arith)))
