-- ===== src/LockFree/LinkedStack/Single.antt =====
-- With one consumer and any number of producers, what every step of LockFreeSPSCStack keeps.
use hse_multithreading_examp.Prelude.{
  Bool-cases, ℕ, ◌≡◌, ◌≢◌, ◌⊎◌, inl, inr, refl, ◌∙◌, Bool, true, false, List, [], ◌∷◌, map, ◌==◌,
  arith,
}
use hse_multithreading_examp.LockFree.LinkedStack.{
  Heap, Pc, producer, push_new, push_load, push_exchange, consumer, pop_load, pop_test,
  pop_exchange, pop_take, pop_delete, popped,
}
use hse_multithreading_examp.LockFree.LinkedStack.Chain.{has, Chain}

-- The node that is a thread's own: allocated and not yet pushed, or popped and not yet deleted.
abbrev pub owns : {T : Type 0} → Pc T → ℕ
owns (push_load p) = p
owns (push_exchange p) = p
owns (pop_take p) = p
owns (pop_delete p v) = p
owns _ = 0

abbrev pub is_consumer : {T : Type 0} → Pc T → Bool
is_consumer producer = false
is_consumer (push_new v) = false
is_consumer (push_load p) = false
is_consumer (push_exchange p) = false
is_consumer _ = true

abbrev pub IsOwn : {T : Type 0} → Heap T → List ℕ → ℕ → Type 0
IsOwn m xs p = (p ≢ 0) × (m.alive p ≡ true) × (has p xs ≡ false)

-- What a thread knows, on the list of nodes `xs`.
abbrev pub Knows : {T : Type 0} → Heap T → List ℕ → Pc T → Type 0
Knows m xs (push_load p) = IsOwn m xs p
Knows m xs (push_exchange p) = IsOwn m xs p
Knows m xs (pop_test old) = old ≢ 0 → has old xs ≡ true
Knows m xs (pop_exchange old next) = (has old xs ≡ true) × (m.next old ≡ next)
Knows m xs (pop_take p) = IsOwn m xs p
Knows m xs (pop_delete p v) = IsOwn m xs p × (m.value p ≡ v)
Knows m xs _ = Unit

-- What a step does to the stack's values: a push or a pop at a successful exchange, otherwise
-- nothing; and a null head is loaded only when there are none.
abbrev pub Changes : {T : Type 0} → (ℕ → T) → Pc T → Pc T → List T → List T → Type 0
Changes value (push_exchange p) producer before after = after ≡ value p ∷ before
Changes value (pop_exchange old next) (pop_take p) before after = before ≡ value p ∷ after
Changes value pop_load (pop_test old) before after = (after ≡ before) × ((old ≢ 0) ⊎ (before ≡ []))
Changes value (pop_exchange p next) (pop_test old) before after =
    (after ≡ before) × ((old ≢ 0) ⊎ (before ≡ []))
Changes value p p' before after = after ≡ before

-- Where a live node is after a step: in the list, the thread's own, or some other thread's as before.
abbrev pub Found : {T : Type 0} → Heap T → List ℕ → Pc T → Pc T → List ℕ → ℕ → Type 0
Found m xs p p' after a =
    (has a after ≡ true)
    ⊎ ((owns p' ≡ a) ⊎ ((m.alive a ≡ true) × (has a xs ≡ false) × (owns p ≢ a)))

pub same-Found :
    {T : Type 0} (m : Heap T) (xs : List ℕ) (p p' : Pc T) (a : ℕ)
    → owns p' ≡ owns p
    → m.alive a ≡ true
    → Found m xs p p' xs a
same-Found m xs p p' a o live = elim (Bool-cases (has a xs)) [
  | inl inside ↦ inl inside
  | inr out ↦ elim (Bool-cases (owns p == a)) [
    | inl e ↦ inr (inl (o ∙ ground arith))
    | inr e ↦ inr (inr (live, out, ground arith))
  ]
]

-- One step of a thread, on the list `xs`; `q` is any other thread.
pub record Effect {T : Type 0} (m m' : Heap T) (p p' : Pc T) (xs : List ℕ) : Type 0 where
  pub after : List ℕ
  pub chain_after : Chain m'.next m'.alive m'.head after
  pub own : Knows m' after p'
  pub others :
      (q : Pc T)
      → Knows m xs q
      → (owns q ≢ 0 → owns q ≢ owns p)
      → (is_consumer p ≡ true → is_consumer q ≡ false)
      → Knows m' after q
  pub owner :
      (q : Pc T) → Knows m xs q → (owns q ≢ 0 → owns q ≢ owns p) → owns q ≢ 0 → owns q ≢ owns p'
  pub role : is_consumer p' ≡ is_consumer p
  pub changes : Changes m.value p p' (map m.value xs) (map m'.value after)
  pub found : (a : ℕ) → a ≢ 0 → m'.alive a ≡ true → Found m xs p p' after a

-- A step that leaves the memory as it is and takes no node.
pub quiet :
    {T : Type 0} (m : Heap T) (p p' : Pc T) (xs : List ℕ)
    → Chain m.next m.alive m.head xs
    → Knows m xs p'
    → owns p' ≡ owns p
    → is_consumer p' ≡ is_consumer p
    → Changes m.value p p' (map m.value xs) (map m.value xs)
    → Effect m m p p' xs
quiet m p p' xs c k o r ch = record {
  after = xs;
  chain_after = c;
  own = k;
  others = λ q kq a b. kq;
  owner = λ q kq a ne. λ f. a ne (f ∙ o);
  role = r;
  changes = ch;
  found = λ a nz live. same-Found m xs p p' a o live;
}

-- What another thread knows lasts if its own node and, for the consumer, the list last.
pub still-Knows :
    {T : Type 0} (m m' : Heap T) (xs xs' : List ℕ) (q : Pc T)
    → Knows m xs q
    → ((p : ℕ)
        → owns q ≡ p
        → IsOwn m xs p
        → (m'.alive p ≡ true) × (m'.value p ≡ m.value p) × (has p xs' ≡ false))
    → (is_consumer q ≡ true
        → (p : ℕ) → has p xs ≡ true
        → (has p xs' ≡ true) × (m'.next p ≡ m.next p))
    → Knows m' xs' q
still-Knows m m' xs xs' producer k o l = tt
still-Knows m m' xs xs' (push_new v) k o l = tt
still-Knows m m' xs xs' (push_load p) k o l = (k.0, (o p refl k).0, (o p refl k).2)
still-Knows m m' xs xs' (push_exchange p) k o l = (k.0, (o p refl k).0, (o p refl k).2)
still-Knows m m' xs xs' consumer k o l = tt
still-Knows m m' xs xs' pop_load k o l = tt
still-Knows m m' xs xs' (pop_test old) k o l = λ ne. (l refl old (k ne)).0
still-Knows m m' xs xs' (pop_exchange old next) k o l =
    ((l refl old k.0).0, (l refl old k.0).1 ∙ k.1)
still-Knows m m' xs xs' (pop_take p) k o l = (k.0, (o p refl k).0, (o p refl k).2)
still-Knows m m' xs xs' (pop_delete p v) k o l =
    ((k.0.0, (o p refl k.0).0, (o p refl k.0).2), (o p refl k.0).1 ∙ k.1)
still-Knows m m' xs xs' (popped r) k o l = tt
