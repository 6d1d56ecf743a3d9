-- ===== src/Tasks/Channel/Effects.antt =====
-- What each step of CalcSum of benchmark.cpp does, over a channel that keeps its contract.
use hse_multithreading_examp.Prelude.{
  ℕ, ◌+◌, ◌%◌, ◌^◌, ◌≤◌, ◌<◌, ◌≡◌, ◌≢◌, ◌⊎◌, inl, inr, refl, sym, ap, ◌∙◌, true, false, List, [],
  ◌∷◌, ◌++◌, arith,
}
use mathlib.Core.Path.{subst}
use hse_multithreading_examp.Threads.{total}
use hse_multithreading_examp.Tasks.Channel.{
  Channel, IsChannel, Inserts, Shared, Pc, sending, joining_senders, closing, receiving, adding,
  joining_receivers, joining_sender, returned, ended, Move, send, all_sent, join_senders, close,
  receive, no_more, add, join_receivers, join_sender,
}
use hse_multithreading_examp.Tasks.Channel.Sums.{sum_of, sum_below, rest, rest-next, rest-beyond}

abbrev pub is_sender : Pc → ℕ
is_sender (sending i) = 1
is_sender _ = 0

abbrev pub is_receiver : Pc → ℕ
is_receiver receiving = 1
is_receiver (adding v) = 1
is_receiver _ = 0

sum_of-insert : (v : ℕ) (a b : List ℕ) → sum_of (a ++ (v ∷ b)) ≡ v + sum_of (a ++ b)
sum_of-insert v [] b = refl
sum_of-insert v (x ∷ a) b = omega (arith, sum_of-insert v a b)

sum_of-Inserts : (v : ℕ) (l l' : List ℕ) → Inserts v l l' → sum_of l' ≡ v + sum_of l
sum_of-Inserts v l l' (a, b, e, e') = omega (arith, ap sum_of e, ap sum_of e', sum_of-insert v a b)

module _ (channel : Channel) (law : IsChannel channel) (count step receivers : ℕ) where
  -- What a thread has still to put into the sum.
  abbrev pub due : Pc → ℕ
  due (sending i) = rest count step count i
  due (adding v) = v
  due _ = 0

  abbrev pub Knows : Shared channel.State → Pc → Type 0
  Knows m (sending i) = i < count + step
  Knows m closing = m.senders ≡ 0
  Knows m joining_sender = m.receivers ≡ 0
  Knows m (returned x) = x ≡ sum_below count
  Knows m _ = Unit

  -- `threads` is how many there are.
  pub record Inv (threads : ℕ) (m : Shared channel.State) (pc : ℕ → Pc) : Type 0 where
    pub senders_counted : total is_sender threads pc ≡ m.senders
    pub receivers_counted : total is_receiver threads pc ≡ m.receivers
    pub balance : total due threads pc + sum_of (law.waiting m.channel) + m.sum ≡ sum_below count
    pub knows : (i : ℕ) → Knows m (pc i)
    pub closed_late : law.closed m.channel ≡ true → m.senders ≡ 0
    pub drained :
        (m.receivers ≡ receivers) ⊎ ((law.closed m.channel ≡ true) × (law.waiting m.channel ≡ []))
    pub few : (i : ℕ) → threads ≤ i → pc i ≡ ended

  pub record Effect (m m' : Shared channel.State) (p p' : Pc) : Type 0 where
    pub senders_share : m'.senders + is_sender p ≡ m.senders + is_sender p'
    pub receivers_share : m'.receivers + is_receiver p ≡ m.receivers + is_receiver p'
    pub due_share :
        due p' + sum_of (law.waiting m'.channel) + m'.sum
        ≡ due p + sum_of (law.waiting m.channel) + m.sum
    pub own : Knows m' p'
    pub closed_after : law.closed m'.channel ≡ true → m'.senders ≡ 0
    pub drained_after :
        (m'.receivers ≡ receivers)
        ⊎ ((law.closed m'.channel ≡ true) × (law.waiting m'.channel ≡ []))
    pub fewer : (m'.senders ≤ m.senders) × (m'.receivers ≤ m.receivers)
    pub started : p ≢ ended

  pub still_known :
      (m m' : Shared channel.State) (q : Pc)
      → (m'.senders ≤ m.senders) × (m'.receivers ≤ m.receivers)
      → Knows m q
      → Knows m' q
  still_known m m' (sending i) f k = k
  still_known m m' joining_senders f k = tt
  still_known m m' closing f k = omega arith
  still_known m m' receiving f k = tt
  still_known m m' (adding v) f k = tt
  still_known m m' joining_receivers f k = tt
  still_known m m' joining_sender f k = omega arith
  still_known m m' (returned x) f k = k
  still_known m m' ended f k = tt

  not_inserted : (v : ℕ) (l : List ℕ) → ¬ Inserts v l []
  not_inserted v l ([], b, e, e') = cc
  not_inserted v l (x ∷ a, b, e, e') = cc

  true-ne : true ≢ false
  true-ne e = cc

  module _ (some_step : 0 < step) (small : count + step ≤ 2 ^ 31)
      (fits : sum_below count < 2 ^ 63) where
    pub effect :
        {m m' : Shared channel.State} {p p' : Pc}
        → Move channel count step m p m' p'
        → is_sender p ≤ m.senders
        → is_receiver p ≤ m.receivers
        → due p + m.sum ≤ sum_below count
        → (m.receivers ≡ 0 → m.sum ≡ sum_below count)
        → Knows m p
        → (law.closed m.channel ≡ true → m.senders ≡ 0)
        → ((m.receivers ≡ receivers)
            ⊎ ((law.closed m.channel ≡ true) × (law.waiting m.channel ≡ [])))
        → Effect m m' p p'
    effect {m} (send {i = i} {c = c} lt sent) hs hr hd hz k cl dr =
        let (ins, same) = law.sends_law sent in
        let open_still : law.closed m.channel ≡ true → ⊥ = λ e. absurd (omega (arith, hs, cl e)) in
        record {
          senders_share = refl;
          receivers_share = refl;
          due_share =
              let e : (i + step) % 2 ^ 32 ≡ i + step = omega arith in
              omega (
                arith,
                ap (rest count step count) e,
                rest-next count step some_step i lt,
                sum_of-Inserts i (law.waiting m.channel) (law.waiting c) ins,
              );
          own = omega arith;
          closed_after = λ e. absurd (open_still (sym same ∙ e));
          drained_after = elim dr [ inl e ↦ inl e | inr (e, w) ↦ absurd (open_still e) ];
          fewer = (omega arith, omega arith);
          started = λ e. cc;
        }
    effect {m} (all_sent {i = i} ge) hs hr hd hz k cl dr = record {
      senders_share = omega arith;
      receivers_share = refl;
      due_share = omega (arith, rest-beyond count step some_step count i ge);
      own = tt;
      closed_after = λ e. omega (arith, cl e);
      drained_after = dr;
      fewer = (omega arith, omega arith);
      started = λ e. cc;
    }
    effect {m} (join_senders e) hs hr hd hz k cl dr = record {
      senders_share = refl;
      receivers_share = refl;
      due_share = refl;
      own = e;
      closed_after = cl;
      drained_after = dr;
      fewer = (omega arith, omega arith);
      started = λ e. cc;
    }
    effect {m} close hs hr hd hz k cl dr =
        let (w, c) = law.close_law m.channel in
        record {
          senders_share = refl;
          receivers_share = refl;
          due_share = omega (arith, ap sum_of w);
          own = tt;
          closed_after = λ e. k;
          drained_after = elim dr [ inl e ↦ inl e | inr (e, z) ↦ inr (c, w ∙ z) ];
          fewer = (omega arith, omega arith);
          started = λ e. cc;
        }
    effect {m} (receive {v = v} {c = c} got) hs hr hd hz k cl dr =
        let (ins, same) = law.receives_law got in
        record {
          senders_share = refl;
          receivers_share = refl;
          due_share = omega (arith, sum_of-Inserts v (law.waiting c) (law.waiting m.channel) ins);
          own = tt;
          closed_after = λ e. cl (sym same ∙ e);
          drained_after = elim dr [
            | inl e ↦ inl e
            | inr (e, z) ↦
                absurd (not_inserted v (law.waiting c) (subst (Inserts v (law.waiting c)) z ins))
          ];
          fewer = (omega arith, omega arith);
          started = λ e. cc;
        }
    effect {m} (no_more {c = c} got) hs hr hd hz k cl dr =
        let (was_closed, was_empty, now_closed, now_empty) = law.nothing_law got in
        record {
          senders_share = refl;
          receivers_share = omega arith;
          due_share = omega (arith, ap sum_of was_empty, ap sum_of now_empty);
          own = tt;
          closed_after = λ e. cl was_closed;
          drained_after = inr (now_closed, now_empty);
          fewer = (omega arith, omega arith);
          started = λ e. cc;
        }
    effect {m} (add {v = v}) hs hr hd hz k cl dr = record {
      senders_share = refl;
      receivers_share = refl;
      due_share = omega arith;
      own = tt;
      closed_after = cl;
      drained_after = dr;
      fewer = (omega arith, omega arith);
      started = λ e. cc;
    }
    effect {m} (join_receivers e) hs hr hd hz k cl dr = record {
      senders_share = refl;
      receivers_share = refl;
      due_share = refl;
      own = e;
      closed_after = cl;
      drained_after = dr;
      fewer = (omega arith, omega arith);
      started = λ e. cc;
    }
    effect {m} (join_sender e) hs hr hd hz k cl dr = record {
      senders_share = refl;
      receivers_share = refl;
      due_share = refl;
      own = hz k;
      closed_after = cl;
      drained_after = dr;
      fewer = (omega arith, omega arith);
      started = λ e. cc;
    }
