-- ===== src/Hw4/Concurrent/Effects.antt =====
-- Every step of a push or a pop has the effect of Steps.
use hse_multithreading_examp.Hw4.Concurrent.{
  Pc, producer, push_fetch, push_claim, push_header, push_payload, push_publish, consumer,
  pop_state, pop_header, pop_copy, pop_clear, pop_free, pop_advance, popped, header_of, payload_of,
  Move, push_call, fetch, claim, claim_fails, write_header, write_payload, publish, pop_call,
  not_ready, is_ready, refuse, load_header, copy_out, pass_over, clear, free, advance, return,
}
use mathlib.Core.Path.{subst}
use hse_multithreading_examp.Prelude.{
  ℕ, suc, ◌+◌, ◌%◌, ◌<◌, ◌≡◌, ◌≢◌, ◌⊎◌, inl, inr, refl, sym, ap, true, none, some, List, take,
  arith, update_self,
}
use hse_multithreading_examp.Hw4.Protocol.{
  size_mod, queue_capacity, MessageType, MessageSlot, SharedQueueLayout,
}
use hse_multithreading_examp.Hw4.Queue.{
  cleared, get_slot, write_slot, fetch_write_index, publish_slot,
}
use hse_multithreading_examp.Hw4.Concurrent.Steps.{
  Effect, quiet, on_slot, alone_of_uses, alone_of_empty, alone_of_ready, claim_true, claim_false,
  payload_of-IsWhole,
}
use hse_multithreading_examp.Hw4.Concurrent.Slots.{
  uses, is_consumer, frees, IsCall, IsSent, IsWhole, Knows,
}

module _ (Sent : MessageType → List ℕ → ℕ → Type 0) (expected_type : MessageType)
    (buffer_size : ℕ) where
  claim-Effect :
      (m : SharedQueueLayout) (t : MessageType) (b : List ℕ) (n s : ℕ)
      → IsCall Sent t b n
      → (m.slots s).state ≡ 0
      → Effect Sent m
          (write_slot m s (record (m.slots s) { state = 1 }))
          (push_claim t b n s)
          (push_header t b n s)
  claim-Effect m t b n s k z =
      on_slot Sent m (push_claim t b n s) (push_header t b n s) s (record (m.slots s) { state = 1 })
        (
          k,
          ap (λ (v : MessageSlot). v.state)
              (update_self m.slots s (record (m.slots s) { state = 1 })),
        )
        (λ q kq a c. alone_of_empty Sent m s q z kq) (inr refl) refl (inl refl)
        (λ e. absurd (omega arith))

  -- The slot of the process itself.
  own_slot :
      (m : SharedQueueLayout) (p p' : Pc) (s : ℕ) (v : MessageSlot)
      → uses p ≡ suc s
      → Knows Sent (write_slot m s v) p'
      → (uses p' ≡ 0) ⊎ (uses p' ≡ suc s)
      → is_consumer p' ≡ is_consumer p
      → (frees p ≡ 0) ⊎ (frees p ≡ suc s)
      → (v.state ≡ 2 → frees p' ≢ suc s → IsWhole Sent v)
      → Effect Sent m (write_slot m s v) p p'
  own_slot m p p' s v u k w r f h =
      on_slot Sent m p p' s v k (λ q kq a c. alone_of_uses Sent p s q u a) w r f h

  is_ready-Effect :
      (m : SharedQueueLayout) (i : ℕ)
      → (m.slots (get_slot i)).state ≡ 2
      → IsWhole Sent (m.slots (get_slot i))
      → Effect Sent m m (pop_state i) (pop_header i)
  is_ready-Effect m i e h = record {
    own = (e, h);
    others = λ q kq a c. kq;
    apart = λ q kq a c ne. alone_of_ready Sent m (get_slot i) q e kq (c refl);
    role = refl;
    whole = λ s x nf. inl ((λ g. absurd (omega arith)), refl);
  }

  pub effect :
      {m m' : SharedQueueLayout} {p p' : Pc}
      → Move Sent expected_type buffer_size m p m' p'
      → Knows Sent m p
      → ((s : ℕ)
          → s < queue_capacity
          → is_consumer p ≡ true
          → (m.slots s).state ≡ 2
          → frees p ≢ suc s
          → IsWhole Sent (m.slots s))
      → Effect Sent m m' p p'
  unfolding fetch_write_index publish_slot
  effect {m} (push_call {t = t} {b = b} {n = n} sent enough small) k w =
      quiet Sent m m producer (push_fetch t b n) (λ s. refl) (sent, small, enough) (inl refl) refl
        refl
  effect {m} (fetch {t = t} {b = b} {n = n}) k w =
      quiet Sent m (record m { write_index = (m.write_index + 1) % size_mod }) (push_fetch t b n)
        (push_claim t b n (get_slot m.write_index)) (λ s. refl) k (inl refl) refl refl
  effect {m} (claim {t = t} {b = b} {n = n} {s = s} e) k w =
      let (z, after) = claim_true Sent m s e in
      subst (λ m'. Effect Sent m m' (push_claim t b n s) (push_header t b n s)) (sym after)
        (claim-Effect m t b n s k z)
  effect {m} (claim_fails {t = t} {b = b} {n = n} {s = s} e) k w =
      subst (λ m'. Effect Sent m m' (push_claim t b n s) producer) (sym (claim_false Sent m s e))
        (quiet Sent m m (push_claim t b n s) producer (λ s. refl) tt (inl refl) refl refl)
  effect {m} (write_header {t = t} {b = b} {n = n} {s = s}) (call, st) w =
      own_slot m (push_header t b n s) (push_payload t b n s) s
        (record (m.slots s) { header = header_of t n }) refl
        (rw (update_self m.slots s (record (m.slots s) { header = header_of t n }))
          (call, st, refl))
        (inr refl) refl (inl refl) (λ e. absurd (omega arith))
  effect {m} (write_payload {t = t} {b = b} {n = n} {s = s}) (call, st, hd) w =
      own_slot m (push_payload t b n s) (push_publish t b n s) s
        (record (m.slots s) { payload = payload_of (m.slots s).payload b n }) refl
        (rw
          (update_self m.slots s
            (record (m.slots s) { payload = payload_of (m.slots s).payload b n }))
          (st, payload_of-IsWhole Sent (m.slots s) t b n call hd))
        (inr refl) refl (inl refl) (λ e. absurd (omega arith))
  effect {m} (publish {t = t} {b = b} {n = n} {s = s}) (st, whole) w =
      own_slot m (push_publish t b n s) producer s (record (m.slots s) { state = 2 }) refl tt
        (inl refl) refl (inl refl) (λ e nf. whole)
  effect {m} pop_call k w =
      quiet Sent m m consumer (pop_state m.read_index) (λ s. refl) tt (inl refl) refl refl
  effect {m} (not_ready {i = i} e) k w =
      quiet Sent m m (pop_state i) consumer (λ s. refl) tt (inl refl) refl refl
  effect {m} (is_ready {i = i} e) k w =
      is_ready-Effect m i e (w (get_slot i) (omega arith) refl e (λ g. absurd (omega arith)))
  effect {m} (refuse {i = i} e) k w =
      quiet Sent m m (pop_header i) consumer (λ s. refl) tt (inl refl) refl refl
  effect {m} (load_header {i = i} a b) (e, h) w =
      quiet Sent m m (pop_header i) (pop_copy i (m.slots (get_slot i)).header) (λ s. refl)
        (e, h, refl) (inr refl) refl refl
  effect {m} (copy_out {i = i} {h = h} e) (st, whole, hd) w =
      quiet Sent m m (pop_copy i h)
        (pop_clear i h (some (take h.length (m.slots (get_slot i)).payload))) (λ s. refl)
        (st, subst (λ x. IsSent Sent x (take x.length (m.slots (get_slot i)).payload)) hd whole)
        (inr refl) refl refl
  effect {m} (pass_over {i = i} {h = h} e) (st, whole, hd) w =
      quiet Sent m m (pop_copy i h) (pop_clear i h none) (λ s. refl) (st, tt) (inr refl) refl refl
  effect {m} (clear {i = i} {h = h} {r = r}) (st, got) w =
      own_slot m (pop_clear i h r) (pop_free i h r) (get_slot i)
        (record (m.slots (get_slot i)) { header = cleared.header; payload = cleared.payload }) refl
        (rw
          (update_self m.slots (get_slot i)
            (record (m.slots (get_slot i)) { header = cleared.header; payload = cleared.payload }))
          (st, got))
        (inr refl) refl (inl refl) (λ e nf. absurd (nf refl))
  effect {m} (free {i = i} {h = h} {r = r}) (st, got) w =
      own_slot m (pop_free i h r) (pop_advance i h r) (get_slot i)
        (record (m.slots (get_slot i)) { state = 0 }) refl got (inl refl) refl (inr refl)
        (λ e. absurd (omega arith))
  effect {m} (advance {i = i} {h = h} {r = r}) got w =
      quiet Sent m (record m { read_index = (i + 1) % size_mod }) (pop_advance i h r) (popped h r)
        (λ s. refl) got (inl refl) refl refl
  effect {m} (return {h = h} {r = r}) got w =
      quiet Sent m m (popped h r) consumer (λ s. refl) tt (inl refl) refl refl
