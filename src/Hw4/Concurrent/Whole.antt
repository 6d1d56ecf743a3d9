-- ===== src/Hw4/Concurrent/Whole.antt =====
-- What holds of the queue under any interleaving of its producers and its consumer.
use hse_multithreading_examp.Prelude.{
  ℕ, suc, ◌<◌, ◌≡◌, ◌≢◌, inl, inr, refl, sym, ap, ◌∙◌, true, false, List, arith, update,
  update_self, update_ne, eqb_ne, ◌==◌, Bool-cases,
}
use mathlib.Core.Path.{subst}
use hse_multithreading_examp.Hw4.Protocol.{
  queue_capacity, MessageSlot, MessageType, SharedQueueLayout,
}
use hse_multithreading_examp.Hw4.Concurrent.{
  Pc, producer, push_fetch, push_claim, push_header, push_payload, push_publish, consumer,
  pop_state, pop_header, pop_copy, pop_clear, pop_free, pop_advance, popped, Move,
}
use hse_multithreading_examp.Hw4.Concurrent.Slots.{uses, is_consumer, frees, IsWhole, Knows}
use hse_multithreading_examp.Hw4.Concurrent.Steps.{Effect}
use hse_multithreading_examp.Hw4.Concurrent.Effects.{effect}

consumer_frees : (p : Pc) → is_consumer p ≡ false → frees p ≡ 0
consumer_frees producer c = refl
consumer_frees (push_fetch t b n) c = refl
consumer_frees (push_claim t b n s) c = refl
consumer_frees (push_header t b n s) c = refl
consumer_frees (push_payload t b n s) c = refl
consumer_frees (push_publish t b n s) c = refl
consumer_frees consumer c = refl
consumer_frees (pop_state i) c = refl
consumer_frees (pop_header i) c = refl
consumer_frees (pop_copy i h) c = refl
consumer_frees (pop_clear i h r) c = refl
consumer_frees (pop_free i h r) c = absurd (ground arith)
consumer_frees (pop_advance i h r) c = refl
consumer_frees (popped h r) c = refl

module _ (Sent : MessageType → List ℕ → ℕ → Type 0) (expected_type : MessageType)
    (buffer_size : ℕ) where
  pub record Inv (m : SharedQueueLayout) (pc : ℕ → Pc) : Type 0 where
    pub knows : (i : ℕ) → Knows Sent m (pc i)
    pub apart : (i j : ℕ) → i ≢ j → uses (pc i) ≢ 0 → uses (pc i) ≢ uses (pc j)
    pub one_consumer : (i : ℕ) → is_consumer (pc i) ≡ true → i ≡ 0
    pub whole :
        (s : ℕ)
        → s < queue_capacity
        → (m.slots s).state ≡ 2
        → ((i : ℕ) → frees (pc i) ≢ suc s)
        → IsWhole Sent (m.slots s)

  module _ {m : SharedQueueLayout} {pc : ℕ → Pc} (inv : Inv m pc) where
    not_both : (i j : ℕ) → i ≢ j → is_consumer (pc i) ≡ true → is_consumer (pc j) ≡ false
    not_both i j ne ci = elim (Bool-cases (is_consumer (pc j))) [
      | inl cj ↦ absurd (omega (arith, inv.one_consumer i ci, inv.one_consumer j cj, ne))
      | inr f ↦ f
    ]

    -- No other process frees a slot while the consumer moves.
    others_free :
        (i : ℕ) (s : ℕ)
        → is_consumer (pc i) ≡ true
        → frees (pc i) ≢ suc s
        → (j : ℕ) → frees (pc j) ≢ suc s
    others_free i s c nf j = elim (Bool-cases (i == j)) [
      | inl same ↦ let e : i ≡ j = (ground arith) in subst (λ k. frees (pc k) ≢ suc s) e nf
      | inr other ↦
          let z = consumer_frees (pc j) (not_both i j (ground arith) c) in
          λ g. absurd (omega (arith, z, g))
    ]

    pub keep :
        (i : ℕ) (m' : SharedQueueLayout) (p' : Pc)
        → Move Sent expected_type buffer_size m (pc i) m' p'
        → Inv m' (update pc i p')
    keep i m' p' mv = record {
      knows = λ j. elim (Bool-cases (i == j)) [
        | inl same ↦ rw same e.own
        | inr other ↦
            let ne : i ≢ j = (ground arith) in
            rw other
              (e.others (pc j) (inv.knows j) (inv.apart j i (λ x. ne (sym x))) (not_both i j ne))
      ];
      apart = λ j k ne. elim (Bool-cases (i == j)) [
        | inl same ↦
            let ik : i ≢ k = (ground arith) in
            rw (same, eqb_ne i k ik) (λ nz x. not_used k ik (λ z. nz (x ∙ z)) (sym x))
        | inr other ↦ elim (Bool-cases (i == k)) [
          | inl same ↦ rw (other, same) (not_used j (ground arith))
          | inr last ↦ rw (other, last) (inv.apart j k ne)
        ]
      ];
      one_consumer = λ j. elim (Bool-cases (i == j)) [
        | inl same ↦
            let ij : i ≡ j = (ground arith) in
            rw same (λ c. sym ij ∙ inv.one_consumer i (sym e.role ∙ c))
        | inr other ↦ rw other (inv.one_consumer j)
      ];
      whole = λ s lt st nf.
          elim (e.whole s st (subst (λ q. frees q ≢ suc s) (update_self pc i p') (nf i))) [
            | inr h ↦ h
            | inl (nf0, same) ↦ subst (IsWhole Sent) (sym same) (
                inv.whole s lt (sym (ap (λ (v : MessageSlot). v.state) same) ∙ st) (λ j.
                  elim (Bool-cases (i == j)) [
                    | inl own ↦
                        let ij : i ≡ j = (ground arith) in subst (λ k. frees (pc k) ≢ suc s) ij nf0
                    | inr other ↦
                        subst (λ q. frees q ≢ suc s) (update_ne pc i p' j (ground arith)) (nf j)
                  ]))
          ];
    }
      where
        e : Effect Sent m m' (pc i) p'
        e =
            effect Sent expected_type buffer_size mv (inv.knows i)
              (λ s lt c st nf. inv.whole s lt st (others_free i s c nf))

        not_used : (j : ℕ) → i ≢ j → uses (pc j) ≢ 0 → uses (pc j) ≢ uses p'
        not_used j ne =
            e.apart (pc j) (inv.knows j) (inv.apart j i (λ x. ne (sym x))) (not_both i j ne)
