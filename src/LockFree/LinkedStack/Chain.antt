-- ===== src/LockFree/LinkedStack/Chain.antt =====
-- Linked lists of nodes: the distinct addresses that `next` leads through.
use hse_multithreading_examp.Prelude.{
  ℕ, ◌≡◌, ◌≢◌, refl, Bool, true, false, ◌||◌, List, [], ◌∷◌, map, ap, arith, ◌==◌, update, ◌∙◌,
}

abbrev pub has : ℕ → List ℕ → Bool
has a [] = false
has a (x ∷ xs) = (a == x) || has a xs

-- From `p` on, `next` leads through the live, distinct nodes `xs` to the null pointer.
abbrev pub Chain : (ℕ → ℕ) → (ℕ → Bool) → ℕ → List ℕ → Type 0
Chain next alive p [] = p ≡ 0
Chain next alive p (x ∷ xs) =
    (x ≡ p) × (p ≢ 0) × (alive p ≡ true) × (has p xs ≡ false) × Chain next alive (next p) xs

-- What changes outside the list leaves it alone.
pub frame :
    (next next' : ℕ → ℕ) (alive alive' : ℕ → Bool) (p : ℕ) (xs : List ℕ)
    → Chain next alive p xs
    → ((a : ℕ) → has a xs ≡ true → (next' a ≡ next a) × (alive' a ≡ alive a))
    → Chain next' alive' p xs
frame next next' alive alive' p [] c same = c
frame next next' alive alive' p (x ∷ xs) (e, ne, live, out, rest) same = (
  e,
  ne,
  (same p (ground arith)).1 ∙ live,
  out,
  rw (same p (ground arith)).0
      (frame next next' alive alive' (next p) xs rest (λ a h. same a (ground arith))),
)

pub has-alive :
    (next : ℕ → ℕ) (alive : ℕ → Bool) (p : ℕ) (xs : List ℕ) (a : ℕ)
    → Chain next alive p xs
    → has a xs ≡ true
    → alive a ≡ true
has-alive next alive p [] a c h = absurd (ground arith)
has-alive next alive p (x ∷ xs) a (e, ne, live, out, rest) h =
    ground (arith, has-alive next alive (next p) xs a rest)

pub has-ne_zero :
    (next : ℕ → ℕ) (alive : ℕ → Bool) (p : ℕ) (xs : List ℕ) (a : ℕ)
    → Chain next alive p xs
    → has a xs ≡ true
    → a ≢ 0
has-ne_zero next alive p [] a c h = absurd (ground arith)
has-ne_zero next alive p (x ∷ xs) a (e, ne, live, out, rest) h =
    ground (arith, has-ne_zero next alive (next p) xs a rest)

-- The first node of the list is where it starts.
pub has_start :
    (next : ℕ → ℕ) (alive : ℕ → Bool) (p : ℕ) (xs : List ℕ)
    → Chain next alive p xs
    → p ≢ 0
    → (ys : List ℕ) × (xs ≡ p ∷ ys) × (has p ys ≡ false) × Chain next alive (next p) ys
has_start next alive p [] c h = absurd (h c)
has_start next alive p (x ∷ xs) (e, ne, live, out, rest) h = (xs, ap (λ y. y ∷ xs) e, out, rest)

-- A value outside the list may change.
pub map-update {ℓ} :
    {T : Type ℓ} (value : ℕ → T) (p : ℕ) (v : T) (xs : List ℕ)
    → has p xs ≡ false
    → map (update value p v) xs ≡ map value xs
map-update value p v [] out = refl
map-update value p v (x ∷ xs) out = ground (arith, map-update value p v xs)
