-- ===== src/Atomics/Cas.antt =====
-- synchronization_primitives/atomics/cas.cpp: threads that decrement by compare-exchange.
use hse_multithreading_examp.Prelude.{
  sym, Bool-cases, ℕ, ◌+◌, ◌-◌, ◌^◌, ◌%◌, ◌≡◌, ◌⊎◌, inl, inr, refl, arith, Bool, true, false, ltb,
  ◌&&◌, ◌==◌,
}
use mathlib.Core.Path.{subst}
use hse_multithreading_examp.Threads.{System, Reach, Reach-invariant}

-- A 32-bit int as its two's complement.
unfoldable pub is_positive : ℕ → Bool
is_positive x = ltb 0 x && ltb x (2 ^ 31)

unfoldable pub minus_100 : ℕ → ℕ
minus_100 x = (x + 2 ^ 32 - 100) % 2 ^ 32

-- Where a thread of `decrement` stands, with its local `expected`.
pub data Pc : Type 0 where
  loading : Pc
  looping : (expected : ℕ) → Pc
  done : Pc

pub data Move (x : ℕ) : Pc → ℕ → Pc → Type 0 where
  load : Move x loading x (looping x)
  leave : {e : ℕ} → is_positive e ≡ false → Move x (looping e) x done
  -- The exchange happens; `expected` stays, and the loop goes on.
  exchange : {e : ℕ} → is_positive e ≡ true → x ≡ e → Move x (looping e) (minus_100 e) (looping e)
  -- It does not, which a weak one may also choose when the values agree; `expected` is loaded.
  fail : {e : ℕ} → is_positive e ≡ true → Move x (looping e) x (looping x)

-- `x` is 100 at first. The source has two threads; here there is no bound.
abbrev pub start : System ℕ Pc
start = record { mem = 100; pc = λ _. loading }

-- What a thread knows of `x`.
abbrev Knows : ℕ → Pc → Type 0
Knows x loading = Unit
Knows x (looping e) = ((e ≡ 0) × (x ≡ 0)) ⊎ (e ≡ 100)
Knows x done = x ≡ 0

abbrev Inv : ℕ → (ℕ → Pc) → Type 0
Inv x pc = ((x ≡ 0) ⊎ (x ≡ 100)) × ((i : ℕ) → Knows x (pc i))

-- What is known of 0 stays known.
zero-Knows : (x : ℕ) (p : Pc) → Knows x p → Knows 0 p
zero-Knows x loading k = tt
zero-Knows x (looping e) (inl k) = inl (k.0, refl)
zero-Knows x (looping e) (inr k) = inr k
zero-Knows x done k = refl

-- A move leaves `x` as it is, or takes 100 down to 0.
move-Knows :
    {x x' : ℕ} {p p' : Pc}
    → Move x p x' p'
    → (x ≡ 0) ⊎ (x ≡ 100)
    → Knows x p
    → ((x' ≡ x) ⊎ (x' ≡ 0)) × Knows x' p'
unfolding is_positive minus_100
move-Knows load (inl e) k = (inl refl, inl (e, e))
move-Knows load (inr e) k = (inl refl, inr e)
move-Knows (leave np) v (inl k) = (inl refl, k.1)
move-Knows (leave {e = e} np) v (inr k) = absurd (ground arith)
move-Knows (exchange {e = e} pos same) v (inl k) = absurd (ground arith)
move-Knows (exchange {e = e} pos same) v (inr k) = (inr (ground arith), inr k)
move-Knows (fail pos) (inl e) k = (inl refl, inl (e, e))
move-Knows (fail pos) (inr e) k = (inl refl, inr e)

stay-Inv : {x x' : ℕ} → ((x' ≡ x) ⊎ (x' ≡ 0)) → ((x ≡ 0) ⊎ (x ≡ 100)) → ((x' ≡ 0) ⊎ (x' ≡ 100))
stay-Inv (inl e) (inl z) = inl (omega arith)
stay-Inv (inl e) (inr z) = inr (omega arith)
stay-Inv (inr e) v = inl e

other-Knows : {x x' : ℕ} (p : Pc) → ((x' ≡ x) ⊎ (x' ≡ 0)) → Knows x p → Knows x' p
other-Knows {x} p (inl e) k = subst (λ y. Knows y p) (sym e) k
other-Knows {x} p (inr e) k = subst (λ y. Knows y p) (sym e) (zero-Knows x p k)

reached : {t : System ℕ Pc} → Reach Move start t → Inv t.mem t.pc
reached =
    Reach-invariant Move Inv
      (λ x pc i x' p' inv mv.
        let (change, own) = move-Knows mv inv.0 (inv.1 i) in
        (
          stay-Inv change inv.0,
          (λ j. elim (Bool-cases (i == j)) [
            | inl same ↦ rw same own
            | inr other ↦ rw other (other-Knows (pc j) change (inv.1 j))
          ]),
        ))
      (inr refl, λ i. tt)

-- With any number of threads, in every reachable state `x` is 100 or 0, so that 100 is taken off
-- once at most, and it is 0 as soon as a thread has finished.
pub decremented_once :
    {t : System ℕ Pc}
    → Reach Move start t
    → ((t.mem ≡ 0) ⊎ (t.mem ≡ 100)) × ((i : ℕ) → t.pc i ≡ done → t.mem ≡ 0)
decremented_once {t} r = ((reached r).0, λ i e. subst (Knows t.mem) e ((reached r).1 i))
