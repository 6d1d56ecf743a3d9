-- ===== src/Tasks/Channel/Exercise.antt =====
-- The classes of buffered_channel.h and unbuffered_channel.h as they stand: Send and Close do nothing,
-- and Recv gives nothing at once.
use hse_multithreading_examp.Prelude.{ℕ, ◌≡◌, refl, none, Bool-cases, inl, inr, ◌==◌, ltb, ◌+◌, suc}
use mathlib.Core.Path.{subst}
use hse_multithreading_examp.Threads.{System, Reach, Reach-invariant}
use hse_multithreading_examp.Tasks.Channel.{
  Channel, Shared, Pc, sending, joining_senders, closing, receiving, adding, joining_receivers,
  joining_sender, returned, ended, Move, send, all_sent, join_senders, close, receive, no_more, add,
  join_receivers, join_sender, start,
}

abbrev pub exercise : Channel
exercise = record {
  State = Unit;
  new = tt;
  sends = λ c value c'. Unit;
  receives = λ c result c'. result ≡ none;
  close = λ c. c;
}

-- Nothing was received.
abbrev Knows : Shared Unit → Pc → Type 0
Knows m (adding v) = ⊥
Knows m (returned x) = x ≡ 0
Knows m _ = Unit

abbrev Inv : Shared Unit → (ℕ → Pc) → Type 0
Inv m pc = (m.sum ≡ 0) × ((i : ℕ) → Knows m (pc i))

effect :
    (count senders : ℕ) {m m' : Shared Unit} {p p' : Pc}
    → Move exercise count senders m p m' p'
    → m.sum ≡ 0
    → Knows m p
    → (m'.sum ≡ 0) × Knows m' p'
effect count senders (send lt sent) z k = (z, tt)
effect count senders (all_sent ge) z k = (z, tt)
effect count senders (join_senders e) z k = (z, tt)
effect count senders close z k = (z, tt)
effect count senders (receive e) z k = absurd cc
effect count senders (no_more e) z k = (z, tt)
effect count senders add z k = absurd k
effect count senders (join_receivers e) z k = (z, tt)
effect count senders (join_sender e) z k = (z, z)

same-Knows : (m m' : Shared Unit) (q : Pc) → Knows m q → Knows m' q
same-Knows m m' (sending i) k = tt
same-Knows m m' joining_senders k = tt
same-Knows m m' closing k = tt
same-Knows m m' receiving k = tt
same-Knows m m' (adding v) k = k
same-Knows m m' joining_receivers k = tt
same-Knows m m' joining_sender k = tt
same-Knows m m' (returned x) k = k
same-Knows m m' ended k = tt

-- Over the classes as they stand, CalcSum returns 0, whatever was sent.
pub exercise_sum :
    (count senders receivers : ℕ) {t : System (Shared Unit) Pc} (i x : ℕ)
    → Reach (Move exercise count senders) (start exercise senders receivers) t
    → t.pc i ≡ returned x
    → x ≡ 0
exercise_sum count senders receivers {t} i x run at = subst (Knows t.mem) at (inv.1 i)
  where
    inv : Inv t.mem t.pc
    inv =
        Reach-invariant (Move exercise count senders) Inv
          (λ m pc i m' p' (z, k) mv.
            let (z', own) = effect count senders mv z (k i) in
            (
              z',
              λ j. elim (Bool-cases (i == j)) [
                | inl same ↦ rw same own
                | inr other ↦ rw other (same-Knows m m' (pc j) (k j))
              ],
            ))
          (
            refl,
            λ i. elim (Bool-cases (ltb i senders)) [
              | inl a ↦ rw a tt
              | inr a ↦ elim (Bool-cases (ltb i (senders + receivers))) [
                | inl b ↦ rw (a, b) tt
                | inr b ↦ elim (Bool-cases (i == senders + receivers)) [
                  | inl c ↦ rw (a, b, c) tt
                  | inr c ↦ elim (Bool-cases (i == suc (senders + receivers))) [
                    | inl d ↦ rw (a, b, c, d) tt
                    | inr d ↦ rw (a, b, c, d) tt
                  ]
                ]
              ]
            ],
          )
          run
