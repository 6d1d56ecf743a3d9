-- ===== src/Tasks/Channel/Tests.antt =====
-- CalcSum at a run with one sender and one receiver, over a queue of two places.
use hse_multithreading_examp.Prelude.{
  ℕ, ◌*◌, ◌-◌, ◌/◌, ◌<◌, ◌≡◌, refl, Bool, true, false, none, some, List, [], ◌∷◌, ◌++◌, length,
  arith, append-nil, sym, ap, ◌∙◌,
}
use hse_multithreading_examp.Threads.{System, Reach, here, later, pick}
use hse_multithreading_examp.Tasks.Channel.{
  Channel, IsChannel, Shared, Pc, returned, Move, send, all_sent, join_senders, close, receive,
  no_more, add, join_receivers, join_sender, start,
}
use hse_multithreading_examp.Tasks.Channel.Benchmark.{calc_sum}

-- What it holds, and whether it was closed.
abbrev places : Channel
places = record {
  State = List ℕ × Bool;
  new = ([], false);
  sends = λ c v c'. (c.1 ≡ false) × (length c.0 < 2) × (c' ≡ (c.0 ++ (v ∷ []), c.1));
  receives = λ c r c'. elim r as (λ _. Type 0) [
    | none ↦ (c ≡ ([], true)) × (c' ≡ c)
    | some v ↦ (c.0 ≡ v ∷ c'.0) × (c'.1 ≡ c.1)
  ];
  close = λ c. (c.0, true);
}

places-IsChannel : IsChannel places
places-IsChannel = record {
  waiting = λ c. c.0;
  closed = λ c. c.1;
  new_law = (refl, refl);
  sends_law =
      λ {c} {c'} {v} h. ((c.0, [], sym (append-nil c.0), ap (λ x. x.0) h.2), ap (λ x. x.1) h.2);
  receives_law = λ {c} {c'} {v} h. (([], c'.0, refl, h.0), h.1);
  nothing_law = λ h.
      (ap (λ x. x.1) h.0, ap (λ x. x.0) h.0, ap (λ x. x.1) (h.1 ∙ h.0), ap (λ x. x.0) (h.1 ∙ h.0));
  close_law = λ c. (refl, refl);
}

summed_run :
    (t : System (Shared (List ℕ × Bool)) Pc) × Reach (Move places 2 1) (start places 1 1) t
    × (t.pc 3 ≡ returned 1)
summed_run = (
  _,
  later
      (later
        (later
          (later
            (later
              (later
                (later
                  (later
                    (later
                      (later
                        (later
                          (later here (
                            pick 0
                              (send {c = (0 ∷ [], false)} (omega arith) (refl, omega arith, refl))))
                          (pick 1 (receive {v = 0} {c = ([], false)} (refl, refl))))
                        (pick 0
                          (send {c = (1 ∷ [], false)} (omega arith) (refl, omega arith, refl))))
                      (pick 1 add))
                    (pick 0 (all_sent (omega arith))))
                  (pick 2 (join_senders refl)))
                (pick 2 close))
              (pick 1 (receive {v = 1} {c = ([], true)} (refl, refl))))
            (pick 1 add))
          (pick 1 (no_more {c = ([], true)} (refl, refl))))
        (pick 3 (join_receivers refl)))
      (pick 3 (join_sender refl)),
  refl,
)

calc_sum_example : ◌≡◌ {A = ℕ} 1 (2 * (2 - 1) / 2)
calc_sum_example =
    calc_sum places places-IsChannel 2 1 1 3 1 (omega arith) (omega arith) (omega arith)
      (omega arith) summed_run.1 summed_run.2
