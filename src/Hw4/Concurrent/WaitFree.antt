-- ===== src/Hw4/Concurrent/WaitFree.antt =====
-- How many steps a call of try_push_message or try_pop_message takes.
use hse_multithreading_examp.Hw4.Concurrent.{
  List, Pc, producer, push_fetch, push_claim, push_header, push_payload, push_publish, consumer,
  pop_state, pop_header, pop_copy, pop_clear, pop_free, pop_advance, popped, Move, push_call, fetch,
  claim, claim_fails, write_header, write_payload, publish, pop_call, not_ready, is_ready, refuse,
  load_header, copy_out, pass_over, clear, free, advance, return,
}
use native.Mathlib.Decide.{dec_lt}
use hse_multithreading_examp.Prelude.{
  List, ◌≤◌, ℕ, ◌<◌, ◌≢◌, inl, inr, refl, Bool-cases, arith, ◌==◌,
}
use hse_multithreading_examp.Hw4.Protocol.{
  max_payload_size, MessageType, type_code, SharedQueueLayout,
}
use hse_multithreading_examp.Hw4.Queue.{claim_slot, get_slot}

-- The steps that are left of a call, at most; none between two calls.
abbrev pub steps_left : Pc → ℕ
steps_left producer = 0
steps_left (push_fetch t b n) = 5
steps_left (push_claim t b n s) = 4
steps_left (push_header t b n s) = 3
steps_left (push_payload t b n s) = 2
steps_left (push_publish t b n s) = 1
steps_left consumer = 0
steps_left (pop_state i) = 7
steps_left (pop_header i) = 6
steps_left (pop_copy i h) = 5
steps_left (pop_clear i h r) = 4
steps_left (pop_free i h r) = 3
steps_left (pop_advance i h r) = 2
steps_left (popped h r) = 1

steps_left-bounded : (p : Pc) → steps_left p ≤ 7
steps_left-bounded producer = omega arith
steps_left-bounded (push_fetch t b n) = omega arith
steps_left-bounded (push_claim t b n s) = omega arith
steps_left-bounded (push_header t b n s) = omega arith
steps_left-bounded (push_payload t b n s) = omega arith
steps_left-bounded (push_publish t b n s) = omega arith
steps_left-bounded consumer = omega arith
steps_left-bounded (pop_state i) = omega arith
steps_left-bounded (pop_header i) = omega arith
steps_left-bounded (pop_copy i h) = omega arith
steps_left-bounded (pop_clear i h r) = omega arith
steps_left-bounded (pop_free i h r) = omega arith
steps_left-bounded (pop_advance i h r) = omega arith
steps_left-bounded (popped h r) = omega arith

module _ (Sent : MessageType → List ℕ → ℕ → Type 0) (expected_type : MessageType)
    (buffer_size : ℕ) where
  steps_left-decreases :
      {m m' : SharedQueueLayout} {p p' : Pc}
      → Move Sent expected_type buffer_size m p m' p'
      → steps_left p ≢ 0
      → steps_left p' < steps_left p
  steps_left-decreases (push_call x y z) ne = absurd (ne refl)
  steps_left-decreases pop_call ne = absurd (ne refl)
  steps_left-decreases fetch ne = omega arith
  steps_left-decreases (claim c) ne = omega arith
  steps_left-decreases (claim_fails c) ne = omega arith
  steps_left-decreases write_header ne = omega arith
  steps_left-decreases write_payload ne = omega arith
  steps_left-decreases publish ne = omega arith
  steps_left-decreases (not_ready x) ne = omega arith
  steps_left-decreases (is_ready x) ne = omega arith
  steps_left-decreases (refuse x) ne = omega arith
  steps_left-decreases (load_header x y) ne = omega arith
  steps_left-decreases (copy_out x) ne = omega arith
  steps_left-decreases (pass_over x) ne = omega arith
  steps_left-decreases clear ne = omega arith
  steps_left-decreases free ne = omega arith
  steps_left-decreases advance ne = omega arith
  steps_left-decreases return ne = omega arith

  next_step :
      (m : SharedQueueLayout) (p : Pc)
      → steps_left p ≢ 0
      → (m' : SharedQueueLayout) × (p' : Pc) × Move Sent expected_type buffer_size m p m' p'
  next_step m producer ne = absurd (ne refl)
  next_step m consumer ne = absurd (ne refl)
  next_step m (push_fetch t b n) ne = (_, _, fetch)
  next_step m (push_claim t b n s) ne = elim (Bool-cases (claim_slot m s).0) [
    | inl e ↦ (_, _, claim e)
    | inr e ↦ (_, _, claim_fails e)
  ]
  next_step m (push_header t b n s) ne = (_, _, write_header)
  next_step m (push_payload t b n s) ne = (_, _, write_payload)
  next_step m (push_publish t b n s) ne = (_, _, publish)
  next_step m (pop_state i) ne = elim (Bool-cases ((m.slots (get_slot i)).state == 2)) [
    | inl e ↦ (_, _, is_ready (ground arith))
    | inr e ↦ (_, _, not_ready (ground arith))
  ]
  next_step m (pop_header i) ne =
      elim (dec_lt max_payload_size (m.slots (get_slot i)).header.length) [
        | yes l ↦ (_, _, refuse (inl l))
        | no l ↦ elim (dec_lt buffer_size (m.slots (get_slot i)).header.length) [
          | yes b ↦ (_, _, refuse (inr b))
          | no b ↦ (_, _, load_header (omega arith) (omega arith))
        ]
      ]
  next_step m (pop_copy i h) ne = elim (Bool-cases (h.type == type_code expected_type)) [
    | inl e ↦ (_, _, copy_out (ground arith))
    | inr e ↦ (_, _, pass_over (ground arith))
  ]
  next_step m (pop_clear i h r) ne = (_, _, clear)
  next_step m (pop_free i h r) ne = (_, _, free)
  next_step m (pop_advance i h r) ne = (_, _, advance)
  next_step m (popped h r) ne = (_, _, return)

-- Push and pop are wait-free: a process within a call, whatever is in the queue and whatever the
-- others did, can take its next step, has at most seven left, and has fewer left after each.
pub calls_end :
    (Sent : MessageType → List ℕ → ℕ → Type 0) (expected_type : MessageType) (buffer_size : ℕ)
    (m : SharedQueueLayout) (p : Pc)
    → steps_left p ≢ 0
    → ((m' : SharedQueueLayout) × (p' : Pc) × Move Sent expected_type buffer_size m p m' p')
      × (steps_left p ≤ 7)
      × ((m' : SharedQueueLayout) (p' : Pc)
          → Move Sent expected_type buffer_size m p m' p'
          → steps_left p' < steps_left p)
calls_end S e n m p within = (
  next_step S e n m p within,
  steps_left-bounded p,
  λ m' p' mv. steps_left-decreases S e n mv within,
)
