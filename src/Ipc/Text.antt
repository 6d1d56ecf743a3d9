-- ===== src/Ipc/Text.antt =====
-- Lines of input in fixed buffers, as the programs of ipc write them and print them.
use hse_multithreading_examp.Prelude.{
  append-nil, ℕ, zero, suc, ◌-◌, ◌<◌, ◌≤◌, ◌≡◌, ◌≢◌, refl, ap, Option, none, some, List, [], ◌∷◌,
  ◌++◌, arith, length, take, drop, replicate, memcpy, min,
}
use mathlib.Core.Option

-- What std::format makes of a char array, which it takes for a C string: the bytes before the first
-- zero, or `none` when it reads beyond the array.
unfoldable pub text : List ℕ → Option (List ℕ)
text [] = none
text (zero ∷ bytes) = some []
text (suc b ∷ bytes) = Option.map (λ l. suc b ∷ l) (text bytes)

-- A line, which getline may give with any bytes but the newline, none of them zero.
abbrev pub NoZero : List ℕ → Type 0
NoZero [] = Unit
NoZero (b ∷ bytes) = (b ≢ 0) × NoZero bytes

-- `memset(buffer, 0, n)`, then `memcpy(buffer, line, min(size, n))`.
unfoldable pub stored : ℕ → List ℕ → List ℕ
stored n line = memcpy (replicate n 0) line (min (length line) n)

text-append : (line rest : List ℕ) → NoZero line → text (line ++ (0 ∷ rest)) ≡ some line
unfolding text
text-append [] rest h = refl
text-append (zero ∷ line) rest h = absurd (h.0 refl)
text-append (suc b ∷ line) rest h = ap (Option.map (λ l. suc b ∷ l)) (text-append line rest h.1)

text-none : (line : List ℕ) → NoZero line → text line ≡ none
unfolding text
text-none [] h = refl
text-none (zero ∷ line) h = absurd (h.0 refl)
text-none (suc b ∷ line) h = ap (Option.map (λ l. suc b ∷ l)) (text-none line h.1)

drop-replicate : (k n a : ℕ) → k ≤ n → drop k (replicate n a) ≡ replicate (n - k) a
drop-replicate zero n a h = let e : n - 0 ≡ n = omega arith in rw e
drop-replicate (suc k) zero a h = absurd (omega arith)
drop-replicate (suc k) (suc n) a h =
    let e : suc n - suc k ≡ n - k = omega arith in rw e (drop-replicate k n a (omega arith))

take_all : (line : List ℕ) → take (length line) line ≡ line
take_all [] = refl
take_all (b ∷ line) = ap (λ l. b ∷ l) (take_all line)

take-NoZero : (k : ℕ) (line : List ℕ) → NoZero line → NoZero (take k line)
take-NoZero zero line h = tt
take-NoZero (suc k) [] h = tt
take-NoZero (suc k) (b ∷ line) h = (h.0, take-NoZero k line h.1)

-- A line that is shorter than the buffer is printed whole.
pub text-stored :
    (n : ℕ) (line : List ℕ) → NoZero line → length line < n → text (stored n line) ≡ some line
unfolding stored
text-stored n line h short =
    let k : min (length line) n ≡ length line = omega arith in
    let z : n - length line ≡ suc (n - length line - 1) = omega arith in
    rw (k, take_all line, drop-replicate (length line) n 0 (omega arith), z)
      (text-append line (replicate (n - length line - 1) 0) h)

-- One that fills it leaves no zero at the end, and printing it reads beyond the buffer.
pub text-stored_full :
    (n : ℕ) (line : List ℕ) → NoZero line → n ≤ length line → text (stored n line) ≡ none
unfolding stored
text-stored_full n line h long =
    let k : min (length line) n ≡ n = omega arith in
    let z : n - n ≡ 0 = omega arith in
    rw (k, drop-replicate n n 0 (omega arith), z, append-nil (take n line))
      (text-none (take n line) (take-NoZero n line h))
