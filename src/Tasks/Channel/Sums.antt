-- ===== src/Tasks/Channel/Sums.antt =====
-- The numbers that the threads of Send of benchmark.cpp send.
use hse_multithreading_examp.Prelude.{
  ℕ, zero, suc, ◌+◌, ◌-◌, ◌*◌, ◌/◌, ◌≤◌, ◌<◌, ◌≡◌, ◌∙◌, refl, sym, ap, List, [], ◌∷◌, ltb,
  if◌then◌else◌, arith,
}
use native.Mathlib.Decide.{dec_lt}
use hse_multithreading_examp.Threads.{total, total-const, total-ext}

-- The sum of a list.
abbrev pub sum_of : List ℕ → ℕ
sum_of [] = 0
sum_of (x ∷ l) = x + sum_of l

-- 0 + 1 + ... + (n - 1)
unfoldable pub sum_below : ℕ → ℕ
sum_below zero = 0
sum_below (suc n) = sum_below n + n

-- What a thread that stands at `i` has still to send, in at most `fuel` rounds.
unfoldable pub rest : ℕ → ℕ → ℕ → ℕ → ℕ
rest count step zero i = 0
rest count step (suc fuel) i =
    let later = rest count step fuel (i + step) in if ltb i count then i + later else 0

add-zero : (m : ℕ) → m + 0 ≡ m
add-zero m = omega arith

sum_below-zero : sum_below 0 ≡ 0
unfolding sum_below
sum_below-zero = refl

sum_below-suc : (n : ℕ) → sum_below (suc n) ≡ sum_below n + n
unfolding sum_below
sum_below-suc n = refl

total-shift :
    (w : ℕ → ℕ) (k : ℕ) (f : ℕ → ℕ) → total w k f + w (f k) ≡ w (f 0) + total w k (λ j. f (suc j))
unfolding total
total-shift w zero f = omega arith
total-shift w (suc k) f = omega (arith, total-shift w k f)

sum_below_twice : (n : ℕ) → sum_below (suc n) * 2 ≡ suc n * n
sum_below_twice zero = omega (arith, sum_below-suc 0, sum_below-zero)
sum_below_twice (suc n) = omega (arith, sum_below-suc (suc n), sum_below_twice n)

-- The formula of benchmark.cpp.
pub sum_below_formula : (n : ℕ) → sum_below n ≡ n * (n - 1) / 2
sum_below_formula zero = sum_below-zero
sum_below_formula (suc n) =
    let e : suc n - 1 ≡ n = omega arith in rw e (omega (arith, sum_below_twice n))

module _ (count step : ℕ) (some_step : 0 < step) where
  pub rest-beyond : (fuel i : ℕ) → count ≤ i → rest count step fuel i ≡ 0
  unfolding rest
  rest-beyond zero i ge = refl
  rest-beyond (suc fuel) i ge = ground arith

  rest-suc :
      (fuel i : ℕ) → i < count → rest count step (suc fuel) i ≡ i + rest count step fuel (i + step)
  unfolding rest
  rest-suc fuel i lt = ground arith

  -- Fuel beyond what is enough changes nothing.
  rest-fuel :
      (fuel more i : ℕ)
      → count ≤ i + fuel
      → count ≤ i + more
      → rest count step fuel i ≡ rest count step more i
  rest-fuel zero more i f g =
      rest-beyond zero i (omega arith) ∙ sym (rest-beyond more i (omega arith))
  rest-fuel (suc fuel) zero i f g =
      rest-beyond (suc fuel) i (omega arith) ∙ sym (rest-beyond zero i (omega arith))
  rest-fuel (suc fuel) (suc more) i f g = elim (dec_lt i count) [
    | yes lt ↦
        rest-suc fuel i lt
        ∙ ap (λ r. i + r) (rest-fuel fuel more (i + step) (omega arith) (omega arith))
        ∙ sym (rest-suc more i lt)
    | no ge ↦ rest-beyond (suc fuel) i (omega arith) ∙ sym (rest-beyond (suc more) i (omega arith))
  ]

  pub rest-next :
      (i : ℕ) → i < count → rest count step count i ≡ i + rest count step count (i + step)
  rest-next i lt = rest-fuel count (suc count) i (omega arith) (omega arith) ∙ rest-suc count i lt

  -- What `step` threads that stand at `m`, `m` + 1 and so on have still to send.
  ahead : ℕ → ℕ
  ahead m = total (rest count step count) step (λ j. m + j)

  ahead-suc : (m : ℕ) → m < count → ahead m ≡ m + ahead (suc m)
  unfolding ahead
  ahead-suc m lt = omega (
    arith,
    total-shift (rest count step count) step (λ j. m + j),
    rest-next m lt,
    ap (rest count step count) (add-zero m),
    total-ext (rest count step count) (rest count step count) step (λ j. m + suc j) (λ j. suc m + j)
        (λ j lt. ap (rest count step count) (omega arith)),
  )

  ahead-none : (m : ℕ) → count ≤ m → ahead m ≡ 0
  unfolding ahead
  ahead-none m ge = omega (
    arith,
    total-const (rest count step count) step (λ j. m + j) 0
        (λ j lt. rest-beyond count (m + j) (omega arith)),
  )

  sum-ahead : (d m : ℕ) → m ≤ count → count ≤ m + d → sum_below m + ahead m ≡ sum_below count
  sum-ahead zero m le ge =
      let e : m ≡ count = omega arith in omega (arith, ap sum_below e, ahead-none m (omega arith))
  sum-ahead (suc d) m le ge = elim (dec_lt m count) [
    | yes lt ↦
        omega
          (arith, ahead-suc m lt, sum_below-suc m, sum-ahead d (suc m) (omega arith) (omega arith))
    | no no_more ↦
        let e : m ≡ count = omega arith in omega (arith, ap sum_below e, ahead-none m (omega arith))
  ]

  -- Together the threads of Send send every number below `count` once, so that the sum is that of all
  -- of them.
  pub rest-all : total (rest count step count) step (λ j. j) ≡ sum_below count
  unfolding ahead
  rest-all = omega (
    arith,
    sum_below-zero,
    sum-ahead count 0 (omega arith) (omega arith),
    total-ext (rest count step count) (rest count step count) step (λ j. 0 + j) (λ j. j)
        (λ j lt. ap (rest count step count) (omega arith)),
  )
