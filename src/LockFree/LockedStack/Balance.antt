-- ===== src/LockFree/LockedStack/Balance.antt =====
-- The producer and the consumer of lock_free/spsc_stack.cpp: mutual exclusion, and what they leave.
use hse_multithreading_examp.Prelude.{
  ℕ, ◌+◌, ◌≤◌, ◌≡◌, refl, Bool, true, false, Option, none, some, List, [], ◌∷◌, length, arith, ap,
}
use hse_multithreading_examp.LockFree.LockedStack.{
  push, pop, Producer, to_push, pushing, pushed, Consumer, to_pop, popping, popped, Program, count,
  Step, push_lock, push_body, push_unlock, pop_lock, pop_body, pop_unlock, Reach, begin, later,
}

-- Whether a thread has the mutex, how much it has put in or taken out, and the bound on its loop.
abbrev pub producer_holds : Producer → ℕ
producer_holds (to_push i) = 0
producer_holds (pushing i) = 1
producer_holds (pushed i) = 1

abbrev pub consumer_holds : Consumer → ℕ
consumer_holds (to_pop n) = 0
consumer_holds (popping n) = 1
consumer_holds (popped n v) = 1

abbrev pub put_in : Producer → ℕ
put_in (to_push i) = i
put_in (pushing i) = i
put_in (pushed i) = i + 1

abbrev pub taken_out : Consumer → ℕ
taken_out (to_pop n) = n
taken_out (popping n) = n
taken_out (popped n none) = n
taken_out (popped n (some v)) = n + 1

abbrev flag : Bool → ℕ
flag true = 1
flag false = 0

-- The rounds that have begun.
abbrev begun : Producer → ℕ
begun (to_push i) = i
begun (pushing i) = i + 1
begun (pushed i) = i + 1

record Inv (elements : ℕ) (s : Program) : Type 0 where
  held : producer_holds s.producer + consumer_holds s.consumer ≡ flag s.locked
  balanced : put_in s.producer ≡ taken_out s.consumer + length s.stack
  bounded : begun s.producer ≤ elements

flag-le : (b : Bool) → flag b ≤ 1
flag-le true = omega arith
flag-le false = omega arith

length-pop :
    (n : ℕ) (stack : List ℕ)
    → taken_out (popped n (pop stack).0) + length (pop stack).1 ≡ n + length stack
unfolding pop
length-pop n [] = refl
length-pop n (x ∷ xs) = omega arith

taken_out-count : (n : ℕ) (v : Option ℕ) → taken_out (to_pop (count n v)) ≡ taken_out (popped n v)
unfolding count
taken_out-count n none = refl
taken_out-count n (some v) = refl

keep : (elements : ℕ) (s t : Program) → Step elements s t → Inv elements s → Inv elements t
unfolding push
keep elements s t (push_lock i e lt free) inv = ground (arith, inv.held, inv.balanced, inv.bounded)
keep elements s t (push_body i e) inv = ground (arith, inv.held, inv.balanced, inv.bounded)
keep elements s t (push_unlock i e) inv =
    ground (arith, inv.held, inv.balanced, inv.bounded, flag-le s.locked)
keep elements s t (pop_lock n e lt free) inv = ground (arith, inv.held, inv.balanced, inv.bounded)
keep elements s t (pop_body n e) inv =
    ground (arith, inv.held, inv.balanced, inv.bounded, length-pop n s.stack)
keep elements s t (pop_unlock n v e) inv =
    ground (arith, inv.held, inv.balanced, inv.bounded, flag-le s.locked, taken_out-count n v)

reached : (elements : ℕ) {s : Program} → Reach elements s → Inv elements s
reached elements begin = record { held = refl; balanced = refl; bounded = omega arith }
reached elements (later {s} {t} r st) = keep elements s t st (reached elements r)

empty_of_length : (xs : List ℕ) → length xs ≡ 0 → xs ≡ []
empty_of_length [] e = refl
empty_of_length (x ∷ xs) e = absurd (omega arith)

-- Under any interleaving the two threads never have the mutex together, and the values that the
-- producer has put in are those that the consumer has taken out and those on the stack, in number.
pub stack_balance :
    (elements : ℕ) {s : Program}
    → Reach elements s
    → (producer_holds s.producer + consumer_holds s.consumer ≤ 1)
      × (put_in s.producer ≡ taken_out s.consumer + length s.stack)
stack_balance elements {s} r =
    (omega (arith, (reached elements r).held, flag-le s.locked), (reached elements r).balanced)

-- Once both have left their loops the stack is empty.
pub all_consumed :
    (elements : ℕ) {s : Program}
    → Reach elements s
    → s.producer ≡ to_push elements
    → s.consumer ≡ to_pop elements
    → s.stack ≡ []
all_consumed elements {s} r p c =
    empty_of_length s.stack
      (omega (arith, (reached elements r).balanced, ap put_in p, ap taken_out c))
