-- ===== src/Locks/DataManager/Copies.antt =====
-- What GetCopy returns under any interleaving.
use hse_multithreading_examp.Prelude.{
  ℕ, suc, ◌+◌, ◌<◌, ◌≡◌, ◌≢◌, ◌⊎◌, inl, inr, refl, sym, ap, ◌∙◌, Bool, true, false, List, [], ◌∷◌,
  ◌++◌, length, length-append, append-nil, append_assoc, get_or, arith, update, Bool-cases, ◌==◌,
}
use mathlib.Core.Path.{subst}
use hse_multithreading_examp.Threads.{System, Reach, Reach-invariant}
use hse_multithreading_examp.Locks.DataManager.{
  Manager, Pc, idle, change_lock, change_move, change_unlock, copy_lock, copy_size, copy_element,
  copy_unlock, returned, Move, call_change, lock_change, move_data, unlock_change, call_copy,
  lock_copy, take_size, next_element, all_copied, unlock_copy, return, start,
}

-- The element behind a first part of a list.
get_or-append :
    {A : Type 0} (blank : A) (first : List A) (x : A) (rest : List A)
    → get_or (first ++ (x ∷ rest)) (length first) blank ≡ x
get_or-append blank [] x rest = refl
get_or-append blank (y ∷ first) x rest = get_or-append blank first x rest

-- A thread that has locked the mutex.
abbrev holds : {A : Type 0} → Pc A → Bool
holds (change_move d) = true
holds change_unlock = true
holds copy_size = true
holds (copy_element n c) = true
holds (copy_unlock c) = true
holds _ = false

module _ {A : Type 0} (blank : A) (Given : List A → Type 0) (initial : List A) where
  -- What the vector may be: what it was at the start, or what a call of ChangeData gave it.
  abbrev pub IsValue : List A → Type 0
  IsValue d = (d ≡ initial) ⊎ Given d

  abbrev Knows : Manager A → Pc A → Type 0
  Knows m (change_lock d) = Given d
  Knows m (change_move d) = Given d
  Knows m (copy_element n c) = (n ≡ length m.m_data) × (rest : List A) × (m.m_data ≡ c ++ rest)
  Knows m (copy_unlock c) = c ≡ m.m_data
  Knows m (returned c) = IsValue c
  Knows m _ = Unit

  -- What a thread knows lasts while its mutex keeps others from the vector.
  still-Knows :
      (m m' : Manager A) (q : Pc A)
      → Knows m q
      → (holds q ≡ true → m'.m_data ≡ m.m_data)
      → Knows m' q
  still-Knows m m' idle k same = tt
  still-Knows m m' (change_lock d) k same = k
  still-Knows m m' (change_move d) k same = k
  still-Knows m m' change_unlock k same = tt
  still-Knows m m' copy_lock k same = tt
  still-Knows m m' copy_size k same = tt
  still-Knows m m' (copy_element n c) k same = rw (same refl) k
  still-Knows m m' (copy_unlock c) k same = rw (same refl) k
  still-Knows m m' (returned c) k same = k

  record Effect (m m' : Manager A) (p p' : Pc A) : Type 0 where
    own : Knows m' p'
    value : IsValue m'.m_data
    data_kept : (m'.m_data ≡ m.m_data) ⊎ (holds p ≡ true)
    lock :
        ((holds p' ≡ holds p) × (m'.locked ≡ m.locked))
        ⊎ ((m.locked ≡ false) × (m'.locked ≡ true))
        ⊎ ((holds p ≡ true) × (holds p' ≡ false))

  next_element-Knows :
      (m : Manager A) (n : ℕ) (c : List A)
      → Knows m (copy_element n c)
      → length c < n
      → Knows m (copy_element n (c ++ (get_or m.m_data (length c) blank ∷ [])))
  next_element-Knows m n c (size, [], e) lt =
      let z : m.m_data ≡ c = e ∙ append-nil c in
      absurd (let y : length m.m_data ≡ length c = ap length z in omega arith)
  next_element-Knows m n c (size, x ∷ rest, e) lt =
      let got : get_or m.m_data (length c) blank ≡ x = rw e (get_or-append blank c x rest) in
      (size, rest, rw got (e ∙ sym (append_assoc c (x ∷ []) rest)))

  copied_all :
      (m : Manager A) (n : ℕ) (c : List A)
      → Knows m (copy_element n c)
      → length c ≡ n
      → c ≡ m.m_data
  copied_all m n c (size, [], e) done = sym (e ∙ append-nil c)
  copied_all m n c (size, x ∷ rest, e) done = absurd (
      let y : length m.m_data ≡ length c + suc (length rest) =
        ap length e ∙ length-append c (x ∷ rest) in
      omega arith)

  effect :
      {m m' : Manager A} {p p' : Pc A}
      → Move blank Given m p m' p'
      → Knows m p
      → IsValue m.m_data
      → Effect m m' p p'
  effect (call_change g) k v = record {
    own = g;
    value = v;
    data_kept = inl refl;
    lock = inl (refl, refl);
  }
  effect (lock_change e) k v = record {
    own = k;
    value = v;
    data_kept = inl refl;
    lock = inr (inl (e, refl));
  }
  effect move_data k v = record {
    own = tt;
    value = inr k;
    data_kept = inr refl;
    lock = inl (refl, refl);
  }
  effect unlock_change k v = record {
    own = tt;
    value = v;
    data_kept = inl refl;
    lock = inr (inr (refl, refl));
  }
  effect call_copy k v = record {
    own = tt;
    value = v;
    data_kept = inl refl;
    lock = inl (refl, refl);
  }
  effect (lock_copy e) k v = record {
    own = tt;
    value = v;
    data_kept = inl refl;
    lock = inr (inl (e, refl));
  }
  effect {m} take_size k v = record {
    own = (refl, m.m_data, refl);
    value = v;
    data_kept = inl refl;
    lock = inl (refl, refl);
  }
  effect {m} (next_element {size} {copied} lt) k v = record {
    own = next_element-Knows m size copied k lt;
    value = v;
    data_kept = inl refl;
    lock = inl (refl, refl);
  }
  effect {m} (all_copied {size} {copied} e) k v = record {
    own = copied_all m size copied k e;
    value = v;
    data_kept = inl refl;
    lock = inl (refl, refl);
  }
  effect unlock_copy k v = record {
    own = subst IsValue (sym k) v;
    value = v;
    data_kept = inl refl;
    lock = inr (inr (refl, refl));
  }
  effect return k v = record { own = tt; value = v; data_kept = inl refl; lock = inl (refl, refl) }

  record Inv (m : Manager A) (pc : ℕ → Pc A) : Type 0 where
    knows : (i : ℕ) → Knows m (pc i)
    value : IsValue m.m_data
    locked : (i : ℕ) → holds (pc i) ≡ true → m.locked ≡ true
    one_holder : (i j : ℕ) → holds (pc i) ≡ true → holds (pc j) ≡ true → i ≡ j

  module _ {m : Manager A} {pc : ℕ → Pc A} (inv : Inv m pc) where
    keep :
        (i : ℕ) (m' : Manager A) (p' : Pc A)
        → Move blank Given m (pc i) m' p'
        → Inv m' (update pc i p')
    keep i m' p' mv = record {
      knows = λ j. elim (Bool-cases (i == j)) [
        | inl same ↦ rw same e.own
        | inr other ↦
            rw other (still-Knows m m' (pc j) (inv.knows j) (λ h. unchanged j (ground arith) h))
      ];
      value = e.value;
      locked = λ j. elim (Bool-cases (i == j)) [
        | inl same ↦ rw same own_lock
        | inr other ↦ rw other (λ h. (other_lock j (ground arith) h).0)
      ];
      one_holder = λ j k. elim (Bool-cases (i == j)) [
        | inl first ↦ elim (Bool-cases (i == k)) [
          | inl second ↦ λ h g. ground arith
          | inr second ↦
              rw (first, second) (λ h g. absurd (let z = (other_lock k (ground arith) g).1 in cc))
        ]
        | inr first ↦ elim (Bool-cases (i == k)) [
          | inl second ↦
              rw (first, second) (λ h g. absurd (let z = (other_lock j (ground arith) h).1 in cc))
          | inr second ↦ rw (first, second) (inv.one_holder j k)
        ]
      ];
    }
      where
        e : Effect m m' (pc i) p'
        e = effect mv (inv.knows i) inv.value

        alone : (j : ℕ) → i ≢ j → holds (pc j) ≡ true → holds (pc i) ≡ true → ⊥
        alone j ne h g = ne (inv.one_holder i j g h)

        unchanged : (j : ℕ) → i ≢ j → holds (pc j) ≡ true → m'.m_data ≡ m.m_data
        unchanged j ne h = elim e.data_kept [ inl s ↦ s | inr g ↦ absurd (alone j ne h g) ]

        -- While another thread holds the mutex, it stays locked and the mover does not hold it.
        other_lock : (j : ℕ) → i ≢ j → holds (pc j) ≡ true → (m'.locked ≡ true) × (holds p' ≡ false)
        other_lock j ne h = elim e.lock [
          | inl (role, same) ↦ (
            same ∙ inv.locked j h,
            elim (Bool-cases (holds p')) [
              | inl g ↦ absurd (alone j ne h (sym role ∙ g))
              | inr g ↦ g
            ],
          )
          | inr (inl (free, now)) ↦ absurd (let z : false ≡ true = sym free ∙ inv.locked j h in cc)
          | inr (inr (g, now)) ↦ absurd (alone j ne h g)
        ]

        own_lock : holds p' ≡ true → m'.locked ≡ true
        own_lock h = elim e.lock [
          | inl (role, same) ↦ same ∙ inv.locked i (sym role ∙ h)
          | inr (inl (free, now)) ↦ now
          | inr (inr (g, now)) ↦ absurd (let z : false ≡ true = sym now ∙ h in cc)
        ]

  reached :
      {t : System (Manager A) (Pc A)} → Reach (Move blank Given) (start initial) t → Inv t.mem t.pc
  reached r =
      Reach-invariant (Move blank Given) Inv (λ m pc i m' p' inv mv. keep inv i m' p' mv)
        (record {
          knows = λ i. tt;
          value = inl refl;
          locked = λ i h. absurd (let z : false ≡ true = h in cc);
          one_holder = λ i j h g. absurd (let z : false ≡ true = h in cc);
        })
        r

-- With any number of threads, under any interleaving, a vector that GetCopy has returned is what the
-- manager had at the start or what one call of ChangeData gave it, never a mixture of several.
pub copies_whole :
    {A : Type 0} (blank : A) (Given : List A → Type 0) (initial : List A)
    {t : System (Manager A) (Pc A)}
    → Reach (Move blank Given) (start initial) t
    → (i : ℕ) (copy : List A) → t.pc i ≡ returned copy
    → (copy ≡ initial) ⊎ Given copy
copies_whole blank Given initial {t} r i copy at =
    subst (Knows blank Given initial t.mem) at ((reached blank Given initial r).knows i)
