-- ===== src/Tasks/Channel/Benchmark.antt =====
-- What CalcSum of benchmark.cpp returns over a channel that keeps its contract.
use hse_multithreading_examp.Prelude.{
  lt→ltb, eqb_refl, ℕ, zero, suc, ◌+◌, ◌-◌, ◌*◌, ◌/◌, ◌^◌, ◌≤◌, ◌<◌, ◌≡◌, inl, inr, refl, sym, ap,
  ◌∙◌, true, false, ltb, ltb_ge, eqb_ne, ◌==◌, update, arith, Bool-cases,
}
use mathlib.Core.Path.{subst}
use native.Mathlib.Decide.{dec_lt}
use hse_multithreading_examp.Threads.{
  System, Reach, Reach-invariant, total, total-update, le-total, total-const, total-ext,
}
use hse_multithreading_examp.Tasks.Channel.{
  Channel, IsChannel, Shared, Pc, sending, joining_senders, closing, receiving, adding,
  joining_receivers, joining_sender, returned, ended, Move, start,
}
use hse_multithreading_examp.Tasks.Channel.Sums.{
  sum_of, sum_below, rest, rest-all, sum_below_formula,
}
use hse_multithreading_examp.Tasks.Channel.Effects.{
  is_sender, is_receiver, due, Knows, Inv, Effect, still_known, effect,
}

-- Who has something to put into the sum is a sender or a receiver.
due_zero :
    (channel : Channel) (law : IsChannel channel) (count step receivers : ℕ) (p : Pc)
    → is_sender p ≡ 0
    → is_receiver p ≡ 0
    → due channel law count step receivers p ≡ 0
due_zero channel law count step receivers (sending i) s r = absurd (omega arith)
due_zero channel law count step receivers (adding v) s r = absurd (omega arith)
due_zero channel law count step receivers joining_senders s r = refl
due_zero channel law count step receivers closing s r = refl
due_zero channel law count step receivers receiving s r = refl
due_zero channel law count step receivers joining_receivers s r = refl
due_zero channel law count step receivers joining_sender s r = refl
due_zero channel law count step receivers (returned x) s r = refl
due_zero channel law count step receivers ended s r = refl

-- A sum over the threads at the start.
total_of_first :
    (channel : Channel) (senders receivers : ℕ) (w : Pc → ℕ) (k : ℕ)
    → k ≤ receivers
    → total w (senders + k) (start channel senders receivers).pc
      ≡ total w senders sending + k * w receiving
unfolding total
total_of_first channel senders receivers w zero le =
    let e : senders + 0 ≡ senders = omega arith in
    rw e (
      total-ext w w senders (start channel senders receivers).pc sending
        (λ j lt. rw (lt→ltb j senders lt) refl)
      ∙ omega arith)
total_of_first channel senders receivers w (suc k) le =
    let e : senders + suc k ≡ suc (senders + k) = omega arith in
    let last : w ((start channel senders receivers).pc (senders + k)) ≡ w receiving =
      rw
        (
          ltb_ge (senders + k) senders (omega arith),
          lt→ltb (senders + k) (senders + receivers) (omega arith),
        )
        refl in
    rw e (omega (arith, last, total_of_first channel senders receivers w k (omega arith)))

total_of_start :
    (channel : Channel) (senders receivers : ℕ) (w : Pc → ℕ)
    → w joining_senders ≡ 0
    → w joining_receivers ≡ 0
    → total w (suc (suc (senders + receivers))) (start channel senders receivers).pc
      ≡ total w senders sending + receivers * w receiving
unfolding total
total_of_start channel senders receivers w a b =
    let joins : w ((start channel senders receivers).pc (senders + receivers)) ≡ 0 =
      rw
        (
          ltb_ge (senders + receivers) senders (omega arith),
          ltb_ge (senders + receivers) (senders + receivers) (omega arith),
          eqb_refl (senders + receivers),
        )
        a in
    let main : w ((start channel senders receivers).pc (suc (senders + receivers))) ≡ 0 =
      rw
        (
          ltb_ge (suc (senders + receivers)) senders (omega arith),
          ltb_ge (suc (senders + receivers)) (senders + receivers) (omega arith),
          eqb_ne (suc (senders + receivers)) (senders + receivers) (omega arith),
          eqb_refl (suc (senders + receivers)),
        )
        b in
    omega (arith, joins, main, total_of_first channel senders receivers w receivers (omega arith))

module _ (channel : Channel) (law : IsChannel channel) (count step receivers : ℕ)
    (some_step : 0 < step) (some_receiver : 0 < receivers) (small : count + step ≤ 2 ^ 31)
    (fits : sum_below count < 2 ^ 63) where
  module _ (threads : ℕ) {m : Shared channel.State} {pc : ℕ → Pc}
      (inv : Inv channel law count step receivers threads m pc) where
    share-le : (w : Pc → ℕ) (i : ℕ) → w ended ≡ 0 → w (pc i) ≤ total w threads pc
    share-le w i none = elim (dec_lt i threads) [
      | yes lt ↦ le-total w threads pc i lt
      | no ge ↦ omega (arith, ap w (inv.few i (omega arith)), none)
    ]

    settled : m.receivers ≡ 0 → m.sum ≡ sum_below count
    settled z = elim inv.drained [
      | inl all ↦ absurd (omega arith)
      | inr (shut, empty) ↦
          let no_sender = inv.closed_late shut in
          omega (
            arith,
            inv.balance,
            ap sum_of empty,
            total-const (due channel law count step receivers) threads pc 0 (λ i lt.
                due_zero channel law count step receivers (pc i)
                  (omega
                    (arith, le-total is_sender threads pc i lt, inv.senders_counted, no_sender))
                  (omega (arith, le-total is_receiver threads pc i lt, inv.receivers_counted, z))),
          )
    ]

    keep :
        (i : ℕ) (m' : Shared channel.State) (p' : Pc)
        → Move channel count step m (pc i) m' p'
        → Inv channel law count step receivers threads m' (update pc i p')
    keep i m' p' mv = record {
      senders_counted = omega (
        arith,
        total-update is_sender threads pc i started p',
        e.senders_share,
        inv.senders_counted,
      );
      receivers_counted = omega (
        arith,
        total-update is_receiver threads pc i started p',
        e.receivers_share,
        inv.receivers_counted,
      );
      balance = omega (
        arith,
        total-update (due channel law count step receivers) threads pc i started p',
        e.due_share,
        inv.balance,
      );
      knows = λ j. elim (Bool-cases (i == j)) [
        | inl same ↦ rw same e.own
        | inr other ↦
            rw other
              (still_known channel law count step receivers m m' (pc j) e.fewer (inv.knows j))
      ];
      closed_late = e.closed_after;
      drained = e.drained_after;
      few = λ j ge. rw (eqb_ne i j (omega (arith, started))) (inv.few j ge);
    }
      where
        e : Effect channel law count step receivers m m' (pc i) p'
        e =
            effect channel law count step receivers some_step small fits mv
              (omega (arith, share-le is_sender i refl, inv.senders_counted))
              (omega (arith, share-le is_receiver i refl, inv.receivers_counted))
              (omega (arith, share-le (due channel law count step receivers) i refl, inv.balance))
              settled (inv.knows i) inv.closed_late inv.drained

        started : i < threads
        started = elim (dec_lt i threads) [
          | yes lt ↦ lt
          | no ge ↦ absurd (e.started (inv.few i (omega arith)))
        ]

  start-Inv :
      Inv channel law count step receivers
        (suc (suc (step + receivers)))
        (start channel step receivers).mem
        (start channel step receivers).pc
  start-Inv = record {
    senders_counted = omega (
      arith,
      total_of_start channel step receivers is_sender refl refl,
      total-const is_sender step sending 1 (λ i lt. refl),
    );
    receivers_counted = omega (
      arith,
      total_of_start channel step receivers is_receiver refl refl,
      total-const is_receiver step sending 0 (λ i lt. refl),
    );
    balance = omega (
      arith,
      total_of_start channel step receivers (due channel law count step receivers) refl refl,
      total-ext (due channel law count step receivers) (rest count step count) step sending (λ j. j)
          (λ j lt. refl),
      rest-all count step some_step,
      ap sum_of law.new_law.0,
    );
    knows = λ i. elim (Bool-cases (ltb i step)) [
      | inl sender ↦ rw sender (ground arith)
      | inr other ↦ elim (Bool-cases (ltb i (step + receivers))) [
        | inl receiver ↦ rw (other, receiver) tt
        | inr last ↦ elim (Bool-cases (i == step + receivers)) [
          | inl joins ↦ rw (other, last, joins) tt
          | inr beyond ↦ elim (Bool-cases (i == suc (step + receivers))) [
            | inl main ↦ rw (other, last, beyond, main) tt
            | inr after ↦ rw (other, last, beyond, after) tt
          ]
        ]
      ]
    ];
    closed_late = λ e. absurd (let x : true ≡ false = sym e ∙ law.new_law.1 in cc);
    drained = inl refl;
    few = λ i ge.
        rw
          (
            ltb_ge i step (omega arith),
            ltb_ge i (step + receivers) (omega arith),
            eqb_ne i (step + receivers) (omega arith),
            eqb_ne i (suc (step + receivers)) (omega arith),
          )
          refl;
  }

-- With any channel that keeps its contract, any number of senders and of receivers but none, and any
-- interleaving: what CalcSum returns is kCount * (kCount - 1) / 2, the answer that Run asks for, as long
-- as that fits an int64_t and kCount and the senders together an int.
pub calc_sum :
    (channel : Channel) (law : IsChannel channel) (count senders receivers : ℕ)
    {t : System (Shared channel.State) Pc} (i x : ℕ)
    → 0 < senders
    → 0 < receivers
    → count + senders ≤ 2 ^ 31
    → count * (count - 1) / 2 < 2 ^ 63
    → Reach (Move channel count senders) (start channel senders receivers) t
    → t.pc i ≡ returned x
    → x ≡ count * (count - 1) / 2
calc_sum channel law count senders receivers {t} i x s r small fits run at =
    subst (Knows channel law count senders receivers t.mem) at (inv.knows i)
    ∙ sum_below_formula count
  where
    below : sum_below count < 2 ^ 63
    below = omega (arith, sum_below_formula count, fits)

    inv : Inv channel law count senders receivers (suc (suc (senders + receivers))) t.mem t.pc
    inv =
        Reach-invariant (Move channel count senders)
          (Inv channel law count senders receivers (suc (suc (senders + receivers))))
          (λ m pc i m' p' inv mv.
            keep channel law count senders receivers s r small below
              (suc (suc (senders + receivers))) inv i m' p' mv)
          (start-Inv channel law count senders receivers s r small below) run
