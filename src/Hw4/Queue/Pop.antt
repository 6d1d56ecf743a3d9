-- ===== src/Hw4/Queue/Pop.antt =====
-- `try_pop_message` of hw4/ipc_queue.cpp, one branch after the other, and as the removal of the
-- oldest of the queue's messages.
use hse_multithreading_examp.Prelude.{
  ltb→lt, ◌⊎◌, eqb_refl, ℕ, suc, ◌+◌, ◌%◌, ◌≤◌, ◌<◌, ◌≡◌, sym, ◌≢◌, ◌∙◌, true, false, not, List,
  ◌∷◌, arith, memcpy, update, length, update_ne, ltb, if◌then◌else◌, ◌==◌, ap, Bool-cases, inl, inr,
  lt→ltb, ltb_ge, guarded_memcpy,
}
use hse_multithreading_examp.Hw4.Queue.Contents.{
  cleared_lem, message_of, IsReady, HasMessages, IsFifo, contents, window, window-ext, window-mod,
}
use native.Mathlib.Nat.{add-zero}
use hse_multithreading_examp.Hw4.Protocol.{
  queue_capacity, max_payload_size, size_mod, MessageType, type_code, state_code, empty, ready,
  MessageHeader, MessageSlot, SharedQueueLayout,
}
use hse_multithreading_examp.Hw4.Queue.{get_slot, cleared, Popped, pop}

-- The slot that a pop looks at.
abbrev pub head_slot : SharedQueueLayout → MessageSlot
head_slot queue = queue.slots (get_slot queue.read_index)

-- The queue behind a message that was taken out.
abbrev pub advanced : SharedQueueLayout → SharedQueueLayout
advanced queue = record queue {
  slots = update queue.slots (get_slot queue.read_index) cleared;
  read_index = (queue.read_index + 1) % size_mod;
}

-- What a pop returns when it leaves everything as it was.
abbrev pub refused : SharedQueueLayout → List ℕ → MessageHeader → Popped
refused queue out_buffer out_header = record {
  done = false;
  queue = queue;
  out_buffer = out_buffer;
  out_header = out_header;
}

module _ (queue : SharedQueueLayout) (expected : MessageType) (out_buffer : List ℕ)
    (buffer_size : ℕ) (out_header : MessageHeader) where
  -- With no message ready a pop is refused and changes nothing.
  pub pop_not_ready :
      (head_slot queue).state ≢ state_code ready
      → pop queue expected out_buffer buffer_size out_header ≡ refused queue out_buffer out_header
  unfolding pop
  pop_not_ready h =
      let e : ((head_slot queue).state == state_code ready) ≡ false = ground arith in rw e

  -- A message that the buffer cannot hold stays where it is.
  pub pop_too_long :
      buffer_size < (head_slot queue).header.length
      → pop queue expected out_buffer buffer_size out_header ≡ refused queue out_buffer out_header
  unfolding pop
  pop_too_long h = elim (Bool-cases (not ((head_slot queue).state == state_code ready))) [
    | inl idle ↦ rw idle
    | inr busy ↦ elim (Bool-cases (ltb max_payload_size (head_slot queue).header.length)) [
      | inl illegal ↦ rw (busy, illegal)
      | inr legal ↦ rw (busy, legal, lt→ltb _ _ h)
    ]
  ]

  -- So does one whose header claims more than a slot holds.
  pub pop_corrupt :
      ltb max_payload_size (head_slot queue).header.length ≡ true
      → pop queue expected out_buffer buffer_size out_header ≡ refused queue out_buffer out_header
  unfolding pop
  pop_corrupt illegal = elim (Bool-cases (not ((head_slot queue).state == state_code ready))) [
    | inl idle ↦ rw idle
    | inr busy ↦ rw (busy, illegal)
  ]

  -- A message that fits is taken out, whatever its type; it reaches the caller if its type is the
  -- expected one.
  pub pop_fits :
      (head_slot queue).state ≡ state_code ready
      → (head_slot queue).header.length ≤ max_payload_size
      → (head_slot queue).header.length ≤ buffer_size
      → pop queue expected out_buffer buffer_size out_header ≡ (
          if (head_slot queue).header.type == type_code expected
          then record {
            done = true;
            queue = advanced queue;
            out_buffer =
                memcpy out_buffer (head_slot queue).payload (head_slot queue).header.length;
            out_header = (head_slot queue).header;
          }
          else refused (advanced queue) out_buffer out_header)
  unfolding pop
  pop_fits at_ready legal fits =
      rw (at_ready, ltb_ge _ _ legal, ltb_ge _ _ fits)
        (elim (Bool-cases ((head_slot queue).header.type == type_code expected)) [
          | inl same ↦ rw (same, guarded_memcpy)
          | inr other ↦ rw other
        ])

-- A pop is refused and changes nothing, or it takes a ready message out.
pub pop_cases :
    (queue : SharedQueueLayout) (expected : MessageType) (out_buffer : List ℕ) (buffer_size : ℕ)
    (out_header : MessageHeader)
    → let r = pop queue expected out_buffer buffer_size out_header in
      (r ≡ refused queue out_buffer out_header)
      ⊎ (((head_slot queue).state ≡ state_code ready) × (r.queue ≡ advanced queue))
pop_cases queue expected out_buffer buffer_size out_header =
    elim (Bool-cases ((head_slot queue).state == state_code ready)) [
      | inr idle ↦
          inl (pop_not_ready queue expected out_buffer buffer_size out_header (ground arith))
      | inl at_ready ↦ elim (Bool-cases (ltb max_payload_size (head_slot queue).header.length)) [
        | inl illegal ↦ inl (pop_corrupt queue expected out_buffer buffer_size out_header illegal)
        | inr legal ↦ elim (Bool-cases (ltb buffer_size (head_slot queue).header.length)) [
          | inl long ↦
              inl (pop_too_long queue expected out_buffer buffer_size out_header (ltb→lt _ _ long))
          | inr fits ↦
              let ready_now : (head_slot queue).state ≡ state_code ready = ground arith in
              inr (
                ready_now,
                rw
                    (pop_fits queue expected out_buffer buffer_size out_header ready_now
                      (ground arith) (ground arith))
                    (ground arith),
              )
        ]
      ]
    ]

-- What a pop that returns true has taken out and copied.
pub pop_done :
    (queue : SharedQueueLayout) (expected : MessageType) (out_buffer : List ℕ) (buffer_size : ℕ)
    (out_header : MessageHeader)
    → (pop queue expected out_buffer buffer_size out_header).done ≡ true
    → ((head_slot queue).state ≡ state_code ready)
      × (((head_slot queue).header.type == type_code expected) ≡ true)
      × ((pop queue expected out_buffer buffer_size out_header).out_buffer
          ≡ memcpy out_buffer (head_slot queue).payload (head_slot queue).header.length)
pop_done queue expected out_buffer buffer_size out_header h =
    elim (Bool-cases ((head_slot queue).state == state_code ready)) [
      | inr idle ↦ absurd (
          not_refused
            (pop_not_ready queue expected out_buffer buffer_size out_header (ground arith)))
      | inl at_ready ↦ elim (Bool-cases (ltb max_payload_size (head_slot queue).header.length)) [
        | inl illegal ↦
            absurd
              (not_refused (pop_corrupt queue expected out_buffer buffer_size out_header illegal))
        | inr legal ↦ elim (Bool-cases (ltb buffer_size (head_slot queue).header.length)) [
          | inl long ↦ absurd (
              not_refused
                (pop_too_long queue expected out_buffer buffer_size out_header (ltb→lt _ _ long)))
          | inr fits ↦ taken (ground arith) (ground arith) (ground arith)
        ]
      ]
    ]
  where
    r : Popped
    r = pop queue expected out_buffer buffer_size out_header

    not_refused : r ≡ refused queue out_buffer out_header → ⊥
    not_refused e = let z = ap (λ (p : Popped). p.done) e in cc

    taken :
        (head_slot queue).state ≡ state_code ready
        → (head_slot queue).header.length ≤ max_payload_size
        → (head_slot queue).header.length ≤ buffer_size
        → ((head_slot queue).state ≡ state_code ready)
          × (((head_slot queue).header.type == type_code expected) ≡ true)
          × (r.out_buffer
              ≡ memcpy out_buffer (head_slot queue).payload (head_slot queue).header.length)
    taken at_ready legal fits =
        let e = pop_fits queue expected out_buffer buffer_size out_header at_ready legal fits in
        elim (Bool-cases ((head_slot queue).header.type == type_code expected)) [
          | inl same ↦ (at_ready, same, rw (e, same))
          | inr other ↦ absurd (let z : r.done ≡ false = rw (e, other) in cc)
        ]

pub head-empty :
    {queue : SharedQueueLayout} → HasMessages queue 0 → (head_slot queue).state ≡ state_code empty
head-empty {queue} shape =
    rw (add-zero queue.read_index) at (shape.empty_slots 0 (omega arith) (omega arith))

module _ {queue : SharedQueueLayout} {n : ℕ} (shape : HasMessages queue (suc n)) where
  open shape use {few, read_in, full_slots, empty_slots, payloads}

  pub head-IsReady : IsReady (head_slot queue)
  head-IsReady = rw (add-zero queue.read_index) at (full_slots 0 (omega arith))

  next : ℕ → ℕ
  next k = ((queue.read_index + 1) % size_mod + k) % queue_capacity

  next-suc : (k : ℕ) → next k ≡ (queue.read_index + suc k) % queue_capacity
  unfolding next
  next-suc k = omega arith

  slots_off :
      (k : ℕ)
      → suc k < queue_capacity
      → (advanced queue).slots (next k) ≡ queue.slots ((queue.read_index + suc k) % queue_capacity)
  slots_off k lt =
      rw (next-suc k) (update_ne queue.slots (get_slot queue.read_index) cleared _ (omega arith))

  empty_after :
      (k : ℕ)
      → n ≤ k
      → k < queue_capacity
      → ((advanced queue).slots (next k)).state ≡ state_code empty
  empty_after k lo hi = elim (Bool-cases (suc k == queue_capacity)) [
    | inl last ↦
        let here : next k ≡ get_slot queue.read_index = ground (arith, next-suc k) in
        rw (here, eqb_refl) (cleared_lem.0)
    | inr before ↦
        rw (slots_off k (ground arith)) (empty_slots (suc k) (omega arith) (ground arith))
  ]

  payloads_after :
      (i : ℕ) → i < queue_capacity → length ((advanced queue).slots i).payload ≡ max_payload_size
  payloads_after i lt = elim (Bool-cases (get_slot queue.read_index == i)) [
    | inl here ↦ rw here (cleared_lem.1)
    | inr other ↦ rw other (payloads i lt)
  ]

  pub advanced-HasMessages : HasMessages (advanced queue) n
  unfolding next
  advanced-HasMessages = record {
    few = omega arith;
    read_in = omega arith;
    full_slots = λ k lt. rw (slots_off k (omega arith)) (full_slots (suc k) (omega arith));
    empty_slots = empty_after;
    payloads = payloads_after;
  }

  -- The oldest message, and those behind it.
  pub advanced-contents :
      contents queue (suc n) ≡ message_of (head_slot queue) ∷ contents (advanced queue) n
  unfolding window next
  advanced-contents = ap (λ t. message_of (head_slot queue) ∷ t) behind
    where
      behind : window queue.slots (queue.read_index + 1) n ≡ contents (advanced queue) n
      behind =
          window-mod queue.slots (queue.read_index + 1) ((queue.read_index + 1) % size_mod) n
            (omega arith)
          ∙ window-ext queue.slots (advanced queue).slots ((queue.read_index + 1) % size_mod) n
              (λ k lt. sym (slots_off k (omega arith) ∙ ap queue.slots (sym (next-suc k))))

  pub head_payload : (head_slot queue).header.length ≤ length (head_slot queue).payload
  head_payload =
      omega (arith, head-IsReady.fits, payloads (get_slot queue.read_index) (omega arith))

pub advanced-IsFifo :
    {queue : SharedQueueLayout} {n : ℕ} → IsFifo queue (suc n) → IsFifo (advanced queue) n
advanced-IsFifo fifo = record {
  shape = advanced-HasMessages fifo.shape;
  write_at = omega (arith, fifo.write_at);
}
