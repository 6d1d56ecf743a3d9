-- ===== src/LockFree/LinkedStack/Destroy.antt =====
-- What the destructor of LockFreeSPSCStack leaves: nothing.
use hse_multithreading_examp.Prelude.{
  ℕ, zero, suc, ◌<◌, ◌≡◌, ◌≢◌, ◌⊎◌, inl, inr, refl, sym, ap, ◌∙◌, Bool, true, false, some, List, [],
  ◌∷◌, length, arith, update, update_ne, Bool-cases, eqb_ne, ◌==◌,
}
use mathlib.Core.Path.{subst}
use hse_multithreading_examp.Threads.{System, Reach}
use hse_multithreading_examp.LockFree.LinkedStack.{
  Heap, Pc, producer, consumer, Move, start, delete_all, destroy,
}
use hse_multithreading_examp.LockFree.LinkedStack.Chain.{has, Chain, frame}
use hse_multithreading_examp.LockFree.LinkedStack.Single.{owns}
use hse_multithreading_examp.LockFree.LinkedStack.Order.{Inv, reached}

-- The memory after the loop on a list: its nodes are dead, and the others are as they were.
abbrev Deleted : {T : Type 0} → List ℕ → Heap T → Heap T → Type 0
Deleted xs m m' =
    (m'.head ≡ m.head) × ((a : ℕ) → m'.alive a ≡ true → (m.alive a ≡ true) × (has a xs ≡ false))

update-false :
    (alive : ℕ → Bool) (p a : ℕ)
    → update alive p false a ≡ true
    → (alive a ≡ true) × ((p == a) ≡ false)
update-false alive p a h = ground arith

flip : (a p : ℕ) → (p == a) ≡ false → (a == p) ≡ false
flip a p h = ground arith

delete_nodes :
    {T : Type 0} (m : Heap T) (p : ℕ) (xs : List ℕ) (fuel : ℕ)
    → Chain m.next m.alive p xs
    → length xs < fuel
    → (m' : Heap T) × (delete_all fuel p m ≡ some m') × Deleted xs m m'
unfolding delete_all
delete_nodes m p xs zero c lt = absurd (omega arith)
delete_nodes m p [] (suc fuel) c lt = (m, ground arith, (refl, λ a live. (live, refl)))
delete_nodes m p (x ∷ xs) (suc fuel) (e, ne, live, out, rest) lt =
    let c : Chain m.next (update m.alive p false) (m.next p) xs =
      frame m.next m.next m.alive (update m.alive p false) (m.next p) xs rest
        (λ a h. (refl, update_ne m.alive p false a (λ z. clash a z h))) in
    let (m', run, (same_head, dead)) =
      delete_nodes (record m { alive = update m.alive p false }) (m.next p) xs fuel c
        (omega arith) in
    (m', rw (eqb_ne p 0 ne, live) run, (same_head, λ a after. still a (dead a after)))
  where
    -- A node that is alive after the loop is not the first one.
    still :
        (a : ℕ)
        → (update m.alive p false a ≡ true) × (has a xs ≡ false)
        → (m.alive a ≡ true) × (has a (x ∷ xs) ≡ false)
    still a (between, not_in) =
        let (was, apart) = update-false m.alive p a between in
        (was, rw (e, flip a p apart, not_in) refl)

    clash : (a : ℕ) → p ≡ a → has a xs ≡ true → ⊥
    clash a z h = let y : has p xs ≡ true = subst (λ k. has k xs ≡ true) (sym z) h in cc

-- With one consumer and any number of producers: in every reachable state in which no thread is within
-- Push or Pop, the destructor ends, after one step more than there are nodes or later, has read and
-- deleted live nodes only, each once, and leaves a null head and no node alive, so that no memory leaks.
pub destroy_all :
    {T : Type 0} (blank : T) {t : System (Heap T) (Pc T)}
    → Reach Move (start blank 1) t
    → ((i : ℕ) → (t.pc i ≡ producer) ⊎ (t.pc i ≡ consumer))
    → (nodes : ℕ) × ((fuel : ℕ)
        → nodes < fuel
        → (m : Heap T) × (destroy fuel t.mem ≡ some m)
          × (m.head ≡ 0)
          × ((a : ℕ) → a ≢ 0 → m.alive a ≡ false))
unfolding destroy
destroy_all blank {t} r idle = (
  length inv.nodes,
  λ fuel enough.
      let (m, run, (head, dead)) =
        delete_nodes (record t.mem { head = 0 }) t.mem.head inv.nodes fuel inv.chain enough in
      (
        m,
        run,
        head,
        λ a nz. elim (Bool-cases (m.alive a)) [
          | inr e ↦ e
          | inl e ↦ elim (inv.covered a nz (dead a e).0) [
            | inl inside ↦ absurd (let z : true ≡ false = sym inside ∙ (dead a e).1 in cc)
            | inr (i, own) ↦ absurd (nz (sym own ∙ none_owned i))
          ]
        ],
      ),
)
  where
    inv : Inv t.mem t.pc
    inv = reached blank r

    none_owned : (i : ℕ) → owns (t.pc i) ≡ 0
    none_owned i = elim (idle i) [ inl e ↦ ap owns e | inr e ↦ ap owns e ]
