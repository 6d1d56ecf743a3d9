-- ===== src/Hw4/Queue/Init.antt =====
-- `init_queue` and `is_queue_valid` of hw4/ipc_queue.cpp.
use hse_multithreading_examp.Prelude.{
  ℕ, zero, suc, ◌+◌, ◌≤◌, ◌<◌, ◌≡◌, refl, ◌↔◌, true, arith, update, update_ne, ◌∙◌, ◌%◌, ◌==◌,
  Bool-cases, inl, inr,
}
use hse_multithreading_examp.Hw4.Protocol.{QueueMeta, MessageSlot, SharedQueueLayout}
use hse_multithreading_examp.Hw4.Queue.{cleared, init_slots, init_queue, is_queue_valid}
use hse_multithreading_examp.Hw4.Queue.Contents.{IsFifo, cleared_lem}

init_slots_below :
    (n i : ℕ) (slots : ℕ → MessageSlot) (j : ℕ) → j < i → init_slots n i slots j ≡ slots j
unfolding init_slots
init_slots_below zero i slots j h = refl
init_slots_below (suc n) i slots j h =
    init_slots_below n (i + 1) (update slots i cleared) j (omega arith)
    ∙ update_ne slots i cleared j (omega arith)

init_slots_within :
    (n i : ℕ) (slots : ℕ → MessageSlot) (j : ℕ)
    → i ≤ j
    → j < i + n
    → init_slots n i slots j ≡ cleared
unfolding init_slots
init_slots_within zero i slots j h k = absurd (omega arith)
init_slots_within (suc n) i slots j h k = elim (Bool-cases (i == j)) [
  | inl here ↦ ground (arith, init_slots_below n (i + 1) (update slots i cleared) j)
  | inr later ↦ init_slots_within n (i + 1) (update slots i cleared) j (ground arith) (omega arith)
]

pub read-init_queue : (queue : SharedQueueLayout) → (init_queue queue).read_index ≡ 0
unfolding init_queue
read-init_queue queue = refl

-- Whatever the memory held, `init_queue` leaves an empty queue in good shape that
-- `is_queue_valid` accepts.
pub init_queue-IsFifo :
    (queue : SharedQueueLayout)
    → IsFifo (init_queue queue) 0 × (is_queue_valid (init_queue queue) ≡ true)
unfolding init_queue is_queue_valid
init_queue-IsFifo queue = (
  record {
    shape = record {
      few = omega arith;
      read_in = omega arith;
      full_slots = λ k h. elim h [ ];
      empty_slots = λ k low high. rw (slot_cleared ((0 + k) % 16) (omega arith)) (cleared_lem.0);
      payloads = λ i h. rw (slot_cleared i h) (cleared_lem.1);
    };
    write_at = refl;
  },
  refl,
)
  where
    slot_cleared : (i : ℕ) → i < 16 → init_slots 16 0 queue.slots i ≡ cleared
    slot_cleared i h = init_slots_within 16 0 queue.slots i (omega arith) h

-- The header that both programs agree on.
abbrev pub protocol_meta : QueueMeta
protocol_meta = record { magic = 0x48573431; version = 1; capacity = 16; max_payload_size = 256 }

-- `is_queue_valid` accepts a queue exactly when the four fields of its header are the protocol's.
pub is_queue_valid_iff :
    (queue : SharedQueueLayout) → (is_queue_valid queue ≡ true) ↔ (queue.meta ≡ protocol_meta)
unfolding is_queue_valid
is_queue_valid_iff queue = ground arith
