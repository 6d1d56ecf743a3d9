-- ===== src/Locks/ProtectedData.antt =====
-- synchronization_primitives/mutex/lock_guard.cpp: ProtectedData, and the calls of `main`, which run
-- one after the other.
mod Tests
use hse_multithreading_examp.Prelude.{
  ap, ◌∙◌, ℕ, ◌≡◌, ◌≢◌, refl, Bool, true, false, Option, none, some, List, [], ◌∷◌, ◌++◌, ◌==◌,
  ◌||◌, Bool-cases, inl, inr, if◌then◌else◌, arith,
}

-- `m_mtx` and `m_data`, here `value`.
pub record ProtectedData : Type 0 where
  pub locked : Bool
  pub value : ℕ

-- `UpdateData` in a thread of its own: `none` when the lock never comes, since a thread that has
-- ended holds the mutex.
unfoldable pub update_data : ProtectedData → ℕ → Option ProtectedData
update_data d new_value =
    if d.locked
    then none
    else if d.value == 42
    then some (record d { locked = true })
    else some (record { locked = false; value = new_value })

-- A call after others, if those returned.
unfoldable pub next_update : Option ProtectedData → ℕ → Option ProtectedData
next_update none value = none
next_update (some d) value = update_data d value

-- The calls of `main`, each thread joined before the next one starts.
unfoldable pub updates : Option ProtectedData → List ℕ → Option ProtectedData
updates d [] = d
updates d (value ∷ values) = updates (next_update d value) values

updates-none : (values : List ℕ) → updates none values ≡ none
unfolding updates next_update
updates-none [] = refl
updates-none (value ∷ values) = updates-none values

-- The call with 42 and the next two.
second_call :
    (d : Option ProtectedData) (a b : ℕ) → next_update (next_update (next_update d 42) a) b ≡ none
unfolding next_update update_data
second_call none a b = refl
second_call (some d) a b = elim (Bool-cases d.locked) [
  | inl l ↦ rw l
  | inr l ↦ elim (Bool-cases (d.value == 42)) [ inl e ↦ rw (l, e) | inr e ↦ rw (l, e) ]
]

one_call :
    (n value : ℕ)
    → (n == 42) ≡ false
    → update_data (record { locked = false; value = n }) value
      ≡ some (record { locked = false; value = value })
unfolding update_data
one_call n value e = rw e

-- Whatever came before, the second call after one with 42 does not return, and so `main` does not
-- end.
pub blocked_after_42 :
    (d : Option ProtectedData) (before : List ℕ) (a b : ℕ) (after : List ℕ)
    → updates d (before ++ (42 ∷ a ∷ b ∷ after)) ≡ none
unfolding updates
blocked_after_42 d [] a b after = ap (λ o. updates o after) (second_call d a b) ∙ updates-none after
blocked_after_42 d (value ∷ before) a b after =
    blocked_after_42 (next_update d value) before a b after

unfoldable pub has_42 : List ℕ → Bool
has_42 [] = false
has_42 (x ∷ xs) = (x == 42) || has_42 xs

unfoldable pub last_or : ℕ → List ℕ → ℕ
last_or n [] = n
last_or n (x ∷ xs) = last_or x xs

-- From a free mutex and other data than 42, calls with other values than 42 all return, leave the
-- mutex free and the last value stored.
pub updates-last_or :
    (n : ℕ) (values : List ℕ)
    → (n == 42) ≡ false
    → has_42 values ≡ false
    → updates (some (record { locked = false; value = n })) values
      ≡ some (record { locked = false; value = last_or n values })
unfolding updates next_update has_42 last_or
updates-last_or n [] fine none_in = refl
updates-last_or n (value ∷ values) fine none_in = elim (Bool-cases (value == 42)) [
  | inl e ↦ absurd (ground (e, none_in, arith))
  | inr e ↦ rw (one_call n value fine) (updates-last_or value values e (ground (e, none_in, arith)))
]
