-- ===== src/LockFree/LinkedStack/Order.antt =====
-- What LockFreeSPSCStack promises with one consumer, under any interleaving.
use hse_multithreading_examp.Prelude.{
  ◌⊎◌, eqb_ne, ℕ, ◌≡◌, ◌≢◌, inl, inr, refl, sym, ◌∙◌, true, false, none, List, [], ◌∷◌, map, arith,
  ◌==◌, update, update_self, update_ne, Bool-cases,
}
use hse_multithreading_examp.LockFree.LinkedStack.{
  ltb, Heap, Pc, producer, push_new, push_load, push_exchange, consumer, pop_load, pop_test,
  pop_exchange, pop_take, pop_delete, popped, Move, start_push, new_node, load_next, push_done,
  push_fails, start_pop, load_head, empty, read_next, pop_done, pop_fails, take, delete, return,
  start,
}
use mathlib.Core.Path.{subst}
use hse_multithreading_examp.Threads.{System, Reach, Reach-invariant}
use hse_multithreading_examp.LockFree.LinkedStack.Chain.{has, Chain, has_start, has-alive}
use hse_multithreading_examp.LockFree.LinkedStack.Single.{
  owns, is_consumer, Knows, Changes, Effect, quiet,
}
use hse_multithreading_examp.LockFree.LinkedStack.Steps.{
  new_node-Effect, next-Effect, push_done-Effect, pop_done-Effect, delete-Effect,
}

module _ {T : Type 0} where
  -- A head that was just loaded is null or in the list.
  head_Knows :
      (m : Heap T) (xs : List ℕ)
      → Chain m.next m.alive m.head xs
      → m.head ≢ 0
      → has m.head xs ≡ true
  head_Knows m xs c ne =
      let (ys, e, out, rest) = has_start m.next m.alive m.head xs c ne in
      subst (λ l. has m.head l ≡ true) (sym e) (ground arith)

  null_head :
      (m : Heap T) (xs : List ℕ)
      → Chain m.next m.alive m.head xs
      → (m.head ≢ 0) ⊎ (map m.value xs ≡ [])
  null_head m [] c = inr refl
  null_head m (x ∷ xs) c = inl c.1

  -- Every step of the only consumer or of a producer.
  pub effect :
      {m m' : Heap T} {p p' : Pc T} (xs : List ℕ)
      → Move m p m' p'
      → Chain m.next m.alive m.head xs
      → Knows m xs p
      → Effect m m' p p' xs
  effect {m} xs (start_push v) c k = quiet m producer (push_new v) xs c tt refl refl refl
  effect {m} xs (new_node {value = v} p ne dead) c k = new_node-Effect m xs p v c ne dead
  effect {m} xs (load_next {p = p}) c k = next-Effect m xs p m.head (push_load p) c k refl refl refl
  effect {m} xs (push_done {p = p} e) c k = push_done-Effect m xs p c k e
  effect {m} xs (push_fails {p = p}) c k =
      next-Effect m xs p m.head (push_exchange p) c k refl refl refl
  effect {m} xs start_pop c k = quiet m consumer pop_load xs c tt refl refl refl
  effect {m} xs load_head c k =
      quiet m pop_load (pop_test m.head) xs c (head_Knows m xs c) refl refl (refl, null_head m xs c)
  effect {m} xs (empty {old = old} z) c k =
      quiet m (pop_test old) (popped none) xs c tt refl refl refl
  effect {m} xs (read_next {old = old} ne) c k =
      quiet m (pop_test old) (pop_exchange old (m.next old)) xs c (k ne, refl) refl refl refl
  effect {m} xs (pop_done {old = old} {next = next} e) c k =
      pop_done-Effect m xs old next c k.0 k.1 e
  effect {m} xs (pop_fails {old = old} {next = next}) c k =
      quiet m (pop_exchange old next) (pop_test m.head) xs c (head_Knows m xs c) refl refl
        (refl, null_head m xs c)
  effect {m} xs (take {old = old}) c k =
      quiet m (pop_take old) (pop_delete old (m.value old)) xs c (k, refl) refl refl refl
  effect {m} xs (delete {old = old} {result = v}) c k = delete-Effect m xs old v c k.0
  effect {m} xs (return {result = r}) c k = quiet m (popped r) consumer xs c tt refl refl refl

  pub record Inv (m : Heap T) (pc : ℕ → Pc T) : Type 0 where
    pub nodes : List ℕ
    pub chain : Chain m.next m.alive m.head nodes
    pub knows : (i : ℕ) → Knows m nodes (pc i)
    pub apart : (i j : ℕ) → i ≢ j → owns (pc i) ≢ 0 → owns (pc i) ≢ owns (pc j)
    pub one_consumer : (i : ℕ) → is_consumer (pc i) ≡ true → i ≡ 0
    pub covered :
        (a : ℕ) → a ≢ 0 → m.alive a ≡ true → (has a nodes ≡ true) ⊎ ((i : ℕ) × (owns (pc i) ≡ a))

  module _ {m : Heap T} {pc : ℕ → Pc T} (inv : Inv m pc) where
    not_both : (i j : ℕ) → i ≢ j → is_consumer (pc i) ≡ true → is_consumer (pc j) ≡ false
    not_both i j ne ci = elim (Bool-cases (is_consumer (pc j))) [
      | inl cj ↦ absurd (omega (arith, inv.one_consumer i ci, inv.one_consumer j cj, ne))
      | inr f ↦ f
    ]

    keep : (i : ℕ) (m' : Heap T) (p' : Pc T) → Move m (pc i) m' p' → Inv m' (update pc i p')
    keep i m' p' mv = record {
      nodes = e.after;
      chain = e.chain_after;
      knows = λ j. elim (Bool-cases (i == j)) [
        | inl same ↦ rw same e.own
        | inr other ↦
            let ne : i ≢ j = ground arith in
            rw other
              (e.others (pc j) (inv.knows j) (inv.apart j i (λ x. ne (sym x))) (not_both i j ne))
      ];
      apart = λ j k ne. elim (Bool-cases (i == j)) [
        | inl same ↦
            let ik : i ≢ k = (ground arith) in
            rw (same, eqb_ne i k ik) (λ nz x. not_owned k ik (λ z. nz (x ∙ z)) (sym x))
        | inr other ↦ elim (Bool-cases (i == k)) [
          | inl same ↦ rw (other, same) (not_owned j (ground arith))
          | inr last ↦ rw (other, last) (inv.apart j k ne)
        ]
      ];
      one_consumer = λ j. elim (Bool-cases (i == j)) [
        | inl same ↦
            let ij : i ≡ j = ground arith in
            rw same (λ c. sym ij ∙ inv.one_consumer i (sym e.role ∙ c))
        | inr other ↦ rw other (inv.one_consumer j)
      ];
      covered = λ a nz live. elim (e.found a nz live) [
        | inl inside ↦ inl inside
        | inr (inl own) ↦ inr (i, subst (λ q. owns q ≡ a) (sym (update_self pc i p')) own)
        | inr (inr (before, outside, ne)) ↦ elim (inv.covered a nz before) [
          | inl inside ↦ absurd (let x : true ≡ false = sym inside ∙ outside in cc)
          | inr (j, own) ↦
              let ij : i ≢ j = (λ x. ne (subst (λ k. owns (pc k) ≡ a) (sym x) own)) in
              inr (j, subst (λ q. owns q ≡ a) (sym (update_ne pc i p' j ij)) own)
        ]
      ];
    }
      where
        e : Effect m m' (pc i) p' inv.nodes
        e = effect inv.nodes mv inv.chain (inv.knows i)

        not_owned : (j : ℕ) → i ≢ j → owns (pc j) ≢ 0 → owns (pc j) ≢ owns p'
        not_owned j ne = e.owner (pc j) (inv.knows j) (inv.apart j i (λ x. ne (sym x)))

  start-Inv : (blank : T) → Inv (start blank 1).mem (start blank 1).pc
  start-Inv blank = record {
    nodes = [];
    chain = refl;
    knows = λ i. elim (Bool-cases (ltb i 1)) [ inl e ↦ rw e tt | inr e ↦ rw e tt ];
    apart = λ i j ne. elim (Bool-cases (ltb i 1)) [
      | inl e ↦ rw e (λ h. absurd (h refl))
      | inr e ↦ rw e (λ h. absurd (h refl))
    ];
    one_consumer = λ i. elim (Bool-cases (ltb i 1)) [
      | inl e ↦ λ h. ground arith
      | inr e ↦ rw e (λ h. absurd (ground arith))
    ];
    covered = λ a nz live. absurd (let x : false ≡ true = live in cc);
  }

  pub reached :
      (blank : T) {t : System (Heap T) (Pc T)} → Reach Move (start blank 1) t → Inv t.mem t.pc
  reached blank =
      Reach-invariant Move Inv (λ m pc i m' p' inv mv. keep inv i m' p' mv) (start-Inv blank)

-- The node that a thread's next step reads, writes or deletes, or 0.
abbrev pub touches : {T : Type 0} → Pc T → ℕ
touches (push_load p) = p
touches (push_exchange p) = p
touches (pop_test old) = old
touches (pop_take old) = old
touches (pop_delete old v) = old
touches _ = 0

touched_alive :
    {T : Type 0} (m : Heap T) (xs : List ℕ) (p : Pc T)
    → Chain m.next m.alive m.head xs
    → Knows m xs p
    → touches p ≢ 0
    → m.alive (touches p) ≡ true
touched_alive m xs (push_load p) c k ne = k.1
touched_alive m xs (push_exchange p) c k ne = k.1
touched_alive m xs (pop_test old) c k ne = has-alive m.next m.alive m.head xs old c (k ne)
touched_alive m xs (pop_take old) c k ne = k.1
touched_alive m xs (pop_delete old v) c k ne = k.0.1
touched_alive m xs producer c k ne = absurd (ne refl)
touched_alive m xs (push_new v) c k ne = absurd (ne refl)
touched_alive m xs consumer c k ne = absurd (ne refl)
touched_alive m xs pop_load c k ne = absurd (ne refl)
touched_alive m xs (pop_exchange old n) c k ne = absurd (ne refl)
touched_alive m xs (popped r) c k ne = absurd (ne refl)

-- With one consumer and any number of producers, under any interleaving and however addresses are
-- given out again, no thread reads, writes or deletes a node that was deleted.
pub no_use_after_free :
    {T : Type 0} (blank : T) {t : System (Heap T) (Pc T)}
    → Reach Move (start blank 1) t
    → (i : ℕ) → touches (t.pc i) ≢ 0
    → t.mem.alive (touches (t.pc i)) ≡ true
no_use_after_free blank {t} r i =
    touched_alive t.mem (reached blank r).nodes (t.pc i) (reached blank r).chain
      ((reached blank r).knows i)

-- The values that the list holds, the top first.
abbrev pub Holds : {T : Type 0} → Heap T → List T → Type 0
Holds m values = (xs : List ℕ) × Chain m.next m.alive m.head xs × (map m.value xs ≡ values)

-- With one consumer and any number of producers, the list is a stack: in every reachable state a
-- step of any thread pushes the new node's value if it is the successful exchange of Push, removes
-- the top if it is that of Pop, and otherwise leaves the values as they are; Pop finds a null head
-- only when there are none.
pub steps_of_stack :
    {T : Type 0} (blank : T) {t : System (Heap T) (Pc T)}
    → Reach Move (start blank 1) t
    → (i : ℕ) {m' : Heap T} {p' : Pc T} → Move t.mem (t.pc i) m' p'
    → (before after : List T) × Holds t.mem before
      × Holds m' after
      × Changes t.mem.value (t.pc i) p' before after
steps_of_stack blank {t} r i {m'} {p'} mv = (
  map t.mem.value inv.nodes,
  map m'.value e.after,
  (inv.nodes, inv.chain, refl),
  (e.after, e.chain_after, refl),
  e.changes,
)
  where
    inv : Inv t.mem t.pc
    inv = reached blank r

    e : Effect t.mem m' (t.pc i) p' inv.nodes
    e = effect inv.nodes mv inv.chain (inv.knows i)
