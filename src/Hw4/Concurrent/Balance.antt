-- ===== src/Hw4/Concurrent/Balance.antt =====
-- How many messages of an interleaved queue are published, read and waiting.
use hse_multithreading_examp.Hw4.Concurrent.{
  List, Pc, push_claim, push_header, push_payload, push_publish, pop_free, Move, push_call, fetch,
  claim, claim_fails, write_header, write_payload, publish, pop_call, not_ready, is_ready, refuse,
  load_header, copy_out, pass_over, clear, free, advance, return, start,
}
use hse_multithreading_examp.Prelude.{
  if◌then◌else◌, ◌==◌, List, Bool-cases, inl, inr, ℕ, ◌+◌, ◌<◌, ◌≡◌, refl, arith,
}
use hse_multithreading_examp.Threads.{
  System, Reach, here, later, pick, along, total, total-const, total-update,
}
use hse_multithreading_examp.Hw4.Protocol.{
  queue_capacity, MessageType, MessageSlot, SharedQueueLayout,
}
use hse_multithreading_examp.Hw4.Queue.{
  init_queue, get_slot, write_slot, fetch_write_index, publish_slot,
}
use hse_multithreading_examp.Hw4.Concurrent.Slots.{Knows}
use hse_multithreading_examp.Hw4.Concurrent.Steps.{claim_true, claim_false}
use hse_multithreading_examp.Hw4.Concurrent.Safety.{reached, state-init_queue, at_start}

-- The next step of a process makes a message ready, or makes the slot of one that was read empty.
abbrev pub publishes : Pc → ℕ
publishes (push_publish t b n s) = 1
publishes _ = 0

abbrev pub consumes : Pc → ℕ
consumes (pop_free i h r) = 1
consumes _ = 0

abbrev pub ready_weight : MessageSlot → ℕ
ready_weight slot = if slot.state == 2 then 1 else 0

-- How many slots of the queue are ready (READY is 2).
abbrev pub ready_slots : SharedQueueLayout → ℕ
ready_slots m = total ready_weight queue_capacity m.slots

-- The slot that a producer has from get_slot.
abbrev slot_of : Pc → ℕ
slot_of (push_claim t b n s) = s
slot_of (push_header t b n s) = s
slot_of (push_payload t b n s) = s
slot_of (push_publish t b n s) = s
slot_of _ = 0

-- A slot that is written without a change of whether it is ready.
same_ready :
    (m : SharedQueueLayout) (s : ℕ) (v : MessageSlot)
    → s < queue_capacity
    → ready_weight v ≡ ready_weight (m.slots s)
    → 0 + ready_slots m ≡ 0 + ready_slots (write_slot m s v)
same_ready m s v lt e = omega (arith, e, total-update ready_weight queue_capacity m.slots s lt v)

module _ (Sent : MessageType → List ℕ → ℕ → Type 0) (expected_type : MessageType)
    (buffer_size : ℕ) where
  slot_of-step :
      {m m' : SharedQueueLayout} {p p' : Pc}
      → Move Sent expected_type buffer_size m p m' p'
      → slot_of p < queue_capacity
      → slot_of p' < queue_capacity
  slot_of-step fetch h = omega arith
  slot_of-step (claim c) h = h
  slot_of-step write_header h = h
  slot_of-step write_payload h = h
  slot_of-step (push_call x y z) h = omega arith
  slot_of-step (claim_fails c) h = omega arith
  slot_of-step publish h = omega arith
  slot_of-step pop_call h = omega arith
  slot_of-step (not_ready x) h = omega arith
  slot_of-step (is_ready x) h = omega arith
  slot_of-step (refuse x) h = omega arith
  slot_of-step (load_header x y) h = omega arith
  slot_of-step (copy_out x) h = omega arith
  slot_of-step (pass_over x) h = omega arith
  slot_of-step clear h = omega arith
  slot_of-step free h = omega arith
  slot_of-step advance h = omega arith
  slot_of-step return h = omega arith

  balance-step :
      {m m' : SharedQueueLayout} {p p' : Pc}
      → Move Sent expected_type buffer_size m p m' p'
      → Knows Sent m p
      → slot_of p < queue_capacity
      → publishes p + ready_slots m ≡ consumes p + ready_slots m'
  unfolding fetch_write_index publish_slot
  balance-step fetch k h = refl
  balance-step {m} (claim {s} c) k h =
      let (z, e) = claim_true Sent m s c in
      rw e (same_ready m s (record (m.slots s) { state = 1 }) h (rw z refl))
  balance-step {m} (claim_fails {s} c) k h = rw (claim_false Sent m s c) refl
  balance-step {m} (write_header {t} {b} {n} {s}) k h = same_ready m s _ h refl
  balance-step {m} (write_payload {t} {b} {n} {s}) k h = same_ready m s _ h refl
  balance-step {m} (publish {t} {b} {n} {s}) k h =
      let z =
        total-update ready_weight queue_capacity m.slots s h (record (m.slots s) { state = 2 }) in
      let old : ready_weight (m.slots s) ≡ 0 = rw k.0 refl in omega (arith, old, z)
  balance-step (push_call x y z) k h = refl
  balance-step pop_call k h = refl
  balance-step (not_ready x) k h = refl
  balance-step (is_ready x) k h = refl
  balance-step (refuse x) k h = refl
  balance-step (load_header x y) k h = refl
  balance-step (copy_out x) k h = refl
  balance-step (pass_over x) k h = refl
  balance-step {m} (clear {i}) k h = same_ready m (get_slot i) _ (omega arith) refl
  balance-step {m} (free {i}) k h =
      let z =
        total-update ready_weight queue_capacity m.slots (get_slot i) (omega arith)
          (record (m.slots (get_slot i)) { state = 0 }) in
      let old : ready_weight (m.slots (get_slot i)) ≡ 1 = rw k.0 refl in omega (arith, old, z)
  balance-step advance k h = refl
  balance-step return k h = refl

  slot_of-reached :
      (raw : SharedQueueLayout) {t : System SharedQueueLayout Pc}
      → Reach (Move Sent expected_type buffer_size) (start raw) t
      → (i : ℕ) → slot_of (t.pc i) < queue_capacity
  slot_of-reached raw here i =
      at_start i (λ p. slot_of p < queue_capacity) (omega arith) (omega arith)
  slot_of-reached raw (later {t} r (pick i {m} {p} mv)) j =
      let h = slot_of-reached raw r in
      elim (Bool-cases (i == j)) [ inl e ↦ rw e (slot_of-step mv (h i)) | inr e ↦ rw e (h j) ]

-- However the producers and the one consumer of an initialised queue interleave, the messages that were
-- made ready are those that the consumer has taken out and those that are ready now: none is lost
-- and none is taken out twice.
pub nothing_lost :
    (Sent : MessageType → List ℕ → ℕ → Type 0) (expected_type : MessageType) (buffer_size : ℕ)
    (raw : SharedQueueLayout) {t : System SharedQueueLayout Pc}
    (r : Reach (Move Sent expected_type buffer_size) (start raw) t)
    → along (Move Sent expected_type buffer_size) publishes r
      ≡ along (Move Sent expected_type buffer_size) consumes r + ready_slots t.mem
unfolding along
nothing_lost S e n raw here =
    let z =
      total-const ready_weight queue_capacity (init_queue raw).slots 0
        (λ i lt. rw (state-init_queue raw i lt) refl) in
    omega (arith, z)
nothing_lost S e n raw (later {t} r (pick i mv)) =
    let before = nothing_lost S e n raw r in
    let now =
      balance-step S e n mv ((reached S e n raw t r).knows i) (slot_of-reached S e n raw r i) in
    omega (arith, before, now)
