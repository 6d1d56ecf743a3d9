-- ===== src/LockFree/LinkedStack/Steps.antt =====
-- The steps of LockFreeSPSCStack that write to memory have the effect of Single.
use mathlib.Core.Path.{subst}
use hse_multithreading_examp.Prelude.{
  ℕ, ◌≡◌, ◌≢◌, inl, inr, refl, sym, ap, ◌∙◌, true, false, some, List, ◌∷◌, map, arith, update,
  update_ne, update_self, Bool-cases, ◌==◌,
}
use hse_multithreading_examp.LockFree.LinkedStack.{
  Heap, Pc, producer, push_new, push_load, push_exchange, consumer, pop_load, pop_test,
  pop_exchange, pop_take, pop_delete, popped,
}
use hse_multithreading_examp.LockFree.LinkedStack.Chain.{
  has, Chain, frame, has-alive, has-ne_zero, has_start, map-update,
}
use hse_multithreading_examp.LockFree.LinkedStack.Single.{
  owns, is_consumer, IsOwn, Knows, Changes, Effect, same-Found, still-Knows,
}

Knows-IsOwn :
    {T : Type 0} (m : Heap T) (xs : List ℕ) (q : Pc T)
    → Knows m xs q
    → owns q ≢ 0
    → IsOwn m xs (owns q)
Knows-IsOwn m xs (push_load p) k ne = k
Knows-IsOwn m xs (push_exchange p) k ne = k
Knows-IsOwn m xs (pop_take p) k ne = k
Knows-IsOwn m xs (pop_delete p v) k ne = k.0
Knows-IsOwn m xs producer k ne = absurd (ne refl)
Knows-IsOwn m xs (push_new v) k ne = absurd (ne refl)
Knows-IsOwn m xs consumer k ne = absurd (ne refl)
Knows-IsOwn m xs pop_load k ne = absurd (ne refl)
Knows-IsOwn m xs (pop_test old) k ne = absurd (ne refl)
Knows-IsOwn m xs (pop_exchange old n) k ne = absurd (ne refl)
Knows-IsOwn m xs (popped r) k ne = absurd (ne refl)

eq_absurd : (p a : ℕ) → p ≡ a → ¬ ((a == p) ≡ false)
eq_absurd p a e f = absurd (ground arith)

eqb_sym : (a b : ℕ) → (a == b) ≡ false → (b == a) ≡ false
eqb_sym a b e = ground arith

module _ {T : Type 0} (m : Heap T) (xs : List ℕ) where
  -- A node that is in the list is not a node outside it.
  in-ne : (p a : ℕ) → has p xs ≡ false → has a xs ≡ true → p ≢ a
  in-ne p a out inside = λ e. cc

  pub new_node-Effect :
      (p : ℕ) (v : T)
      → Chain m.next m.alive m.head xs
      → p ≢ 0
      → m.alive p ≡ false
      → Effect m
          (record m {
            value = update m.value p v;
            next = update m.next p 0;
            alive = update m.alive p true;
          })
          (push_new v)
          (push_load p)
          xs
  new_node-Effect p v c ne dead = record {
    after = xs;
    chain_after =
        frame m.next (update m.next p 0) m.alive (update m.alive p true) m.head xs c (λ a h.
          (update_ne m.next p 0 a (in-ne p a out h), update_ne m.alive p true a (in-ne p a out h)));
    own = (ne, update_self m.alive p true, out);
    others = λ q kq a b.
        still-Knows m
          (record m {
            value = update m.value p v;
            next = update m.next p 0;
            alive = update m.alive p true;
          })
          xs xs q kq
          (λ r e o.
            let pr : p ≢ r = (λ x. cc) in
            (update_ne m.alive p true r pr ∙ o.1, update_ne m.value p v r pr, o.2))
          (λ _ r h. (h, update_ne m.next p 0 r (in-ne p r out h)));
    owner = λ q kq a nq e. let o = Knows-IsOwn m xs q kq nq in let live = o.1 in cc;
    role = refl;
    changes = map-update m.value p v xs out;
    found = λ a nz live. elim (Bool-cases (p == a)) [
      | inl same ↦ inr (inl (ground arith))
      | inr other ↦
          let before : m.alive a ≡ true = sym (update_ne m.alive p true a (ground arith)) ∙ live in
          elim (Bool-cases (has a xs)) [
            | inl inside ↦ inl inside
            | inr outside ↦ inr (inr (before, outside, (λ z. nz (sym z))))
          ]
    ];
  }
    where
      out : has p xs ≡ false
      out = elim (Bool-cases (has p xs)) [
        | inl h ↦ let l = has-alive m.next m.alive m.head xs p c h in cc
        | inr h ↦ h
      ]

  -- `next` of the thread's own node.
  pub next-Effect :
      (p n : ℕ) (pc : Pc T)
      → Chain m.next m.alive m.head xs
      → IsOwn m xs p
      → owns pc ≡ p
      → is_consumer pc ≡ false
      → Changes m.value pc (push_exchange p) (map m.value xs) (map m.value xs)
      → Effect m (record m { next = update m.next p n }) pc (push_exchange p) xs
  next-Effect p n pc c (ne, live, out) e r ch = record {
    after = xs;
    chain_after =
        frame m.next (update m.next p n) m.alive m.alive m.head xs c
          (λ a h. (update_ne m.next p n a (in-ne p a out h), refl));
    own = (ne, live, out);
    others = λ q kq a b.
        still-Knows m (record m { next = update m.next p n }) xs xs q kq (λ r e o. (o.1, refl, o.2))
          (λ _ r h. (h, update_ne m.next p n r (in-ne p r out h)));
    owner = λ q kq a nq f. a nq (f ∙ sym e);
    role = sym r;
    changes = ch;
    found = λ a nz l. same-Found m xs pc (push_exchange p) a (sym e) l;
  }

  pub push_done-Effect :
      (p : ℕ)
      → Chain m.next m.alive m.head xs
      → IsOwn m xs p
      → m.head ≡ m.next p
      → Effect m (record m { head = p }) (push_exchange p) producer xs
  push_done-Effect p c (ne, live, out) e = record {
    after = p ∷ xs;
    chain_after = (refl, ne, live, out, rw⁻¹ e c);
    own = tt;
    others = λ q kq a b.
        still-Knows m (record m { head = p }) xs (p ∷ xs) q kq
          (λ r f o.
            let rp : r ≢ p = (λ x. a (λ z. o.0 (sym f ∙ z)) (f ∙ x)) in (o.1, refl, ground arith))
          (λ _ r h. (ground arith, refl));
    owner = λ q kq a nq. nq;
    role = refl;
    changes = refl;
    found = λ a nz l. elim (Bool-cases (a == p)) [
      | inl same ↦ inl (ground arith)
      | inr other ↦ elim (Bool-cases (has a xs)) [
        | inl inside ↦ inl (ground arith)
        | inr outside ↦ inr (inr (l, outside, (λ z. eq_absurd p a z other)))
      ]
    ];
  }

  pub pop_done-Effect :
      (old n : ℕ)
      → Chain m.next m.alive m.head xs
      → has old xs ≡ true
      → m.next old ≡ n
      → m.head ≡ old
      → Effect m (record m { head = n }) (pop_exchange old n) (pop_take old) xs
  pop_done-Effect old n c inside e h =
      let (ys, xs_is, out, rest) = has_start m.next m.alive m.head xs c (h_ne) in
      record {
        after = ys;
        chain_after = subst (λ a. Chain m.next m.alive a ys) (ap m.next h ∙ e) rest;
        own = (
          old_ne,
          has-alive m.next m.alive m.head xs old c inside,
          subst (λ a. has a ys ≡ false) h out,
        );
        others = λ q kq a b.
            still-Knows m (record m { head = n }) xs ys q kq
              (λ r f o.
                let no : has r (m.head ∷ ys) ≡ false = subst (λ l. has r l ≡ false) xs_is o.2 in
                (o.1, refl, ground arith))
              (λ t. absurd (let u = b refl in cc));
        owner = λ q kq a nq f. let o = Knows-IsOwn m xs q kq nq in let no = o.2 in cc;
        role = refl;
        changes = ap (map m.value) xs_is ∙ ap (λ a. m.value a ∷ map m.value ys) h;
        found = λ a nz l. elim (Bool-cases (a == old)) [
          | inl same ↦ inr (inl (ground arith))
          | inr other ↦ elim (Bool-cases (has a ys)) [
            | inl inside ↦ inl inside
            | inr outside ↦
                let not_head : (a == m.head) ≡ false = rw h other in
                inr (
                  inr
                    (l, subst (λ k. has a k ≡ false) (sym xs_is) (ground arith), (λ z. nz (sym z))))
          ]
        ];
      }
    where
      old_ne : old ≢ 0
      old_ne = has-ne_zero m.next m.alive m.head xs old c inside

      h_ne : m.head ≢ 0
      h_ne = λ z. old_ne (sym h ∙ z)

  pub delete-Effect :
      (old : ℕ) (v : T)
      → Chain m.next m.alive m.head xs
      → IsOwn m xs old
      → Effect m
          (record m { alive = update m.alive old false })
          (pop_delete old v)
          (popped (some v))
          xs
  delete-Effect old v c (ne, live, out) = record {
    after = xs;
    chain_after =
        frame m.next m.next m.alive (update m.alive old false) m.head xs c
          (λ a h. (refl, update_ne m.alive old false a (in-ne old a out h)));
    own = tt;
    others = λ q kq a b.
        still-Knows m (record m { alive = update m.alive old false }) xs xs q kq
          (λ r f o.
            let rp : old ≢ r = (λ x. a (λ z. o.0 (sym f ∙ z)) (f ∙ sym x)) in
            (update_ne m.alive old false r rp ∙ o.1, refl, o.2))
          (λ _ r h. (h, refl));
    owner = λ q kq a nq. nq;
    role = refl;
    changes = refl;
    found = λ a nz l. elim (Bool-cases (old == a)) [
      | inl same ↦ absurd (let dead : false ≡ true = sym (rw same refl) ∙ l in cc)
      | inr other ↦
          let before : m.alive a ≡ true = sym (update_ne m.alive old false a (ground arith)) ∙ l in
          elim (Bool-cases (has a xs)) [
            | inl inside ↦ inl inside
            | inr outside ↦
                inr (inr (before, outside, (λ z. eq_absurd old a z (eqb_sym old a other))))
          ]
    ];
  }
