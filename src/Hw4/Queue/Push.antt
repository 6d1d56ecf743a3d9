-- ===== src/Hw4/Queue/Push.antt =====
-- `try_push_message` of hw4/ipc_queue.cpp, one branch after the other, and as an append to the
-- queue's contents.
use mathlib.Core.Path.{fun_ext, ap₂}
use hse_multithreading_examp.Prelude.{
  ℕ, suc, ◌+◌, ◌%◌, ◌^◌, ◌≤◌, ◌<◌, ◌≡◌, refl, ◌≢◌, ◌∙◌, true, false, List, [], ◌∷◌, ◌++◌, arith,
  eqb_refl, guarded_memcpy, memcpy, take, take-memcpy, length-memcpy, update, length, update_ne,
  update_self, ltb, ◌==◌, ap, Bool-cases, inl, inr,
}
use hse_multithreading_examp.Hw4.Protocol.{
  queue_capacity, writing, max_payload_size, size_mod, MessageType, type_code, state_code, empty,
  ready, MessageSlot, SharedQueueLayout,
}
use hse_multithreading_examp.Hw4.Queue.{
  get_slot, write_slot, claim_slot, send_claimed, fetch_write_index, fill_slot, publish_slot, push,
}
use hse_multithreading_examp.Hw4.Queue.Contents.{
  message_of, IsReady, IsFifo, contents, window-ext, window-suc,
}

-- A slot after a message was put into it.
abbrev pub sent_slot : MessageSlot → MessageType → List ℕ → ℕ → MessageSlot
sent_slot slot type bytes size = record {
  state = state_code ready;
  header = record { type = type_code type; length = size };
  payload = memcpy slot.payload bytes size;
}

abbrev pub pushed : SharedQueueLayout → MessageType → List ℕ → ℕ → SharedQueueLayout
pushed queue type bytes size = record queue {
  write_index = (queue.write_index + 1) % size_mod;
  slots =
      update queue.slots (get_slot queue.write_index)
        (sent_slot (queue.slots (get_slot queue.write_index)) type bytes size);
}

length_fits : (size : ℕ) → size ≤ max_payload_size → size % 2 ^ 32 ≡ size
length_fits size h = omega arith

-- The header, the bytes and the state that go into a claimed slot.
publish-fill :
    (queue : SharedQueueLayout) (i : ℕ) (slot : MessageSlot) (type : MessageType) (bytes : List ℕ)
    (size : ℕ)
    → size ≤ max_payload_size
    → publish_slot (fill_slot (write_slot queue i slot) i type bytes size) i
      ≡ write_slot queue i (sent_slot slot type bytes size)
unfolding publish_slot fill_slot
publish-fill queue i slot type bytes size fits =
    ap (λ slots. record queue { slots = slots })
      (fun_ext λ j. elim (Bool-cases (i == j)) [
        | inl here ↦
            simp (here, eqb_refl, guarded_memcpy slot.payload bytes size, length_fits size fits)
        | inr other ↦ simp (other)
      ])

claim_free :
    (queue : SharedQueueLayout) (i : ℕ)
    → (queue.slots i).state ≡ state_code empty
    → claim_slot queue i
      ≡ (true, write_slot queue i (record (queue.slots i) { state = state_code writing }))
unfolding claim_slot
claim_free queue i free = rw free

-- The queue after `fetch_add`.
abbrev pub counted : SharedQueueLayout → SharedQueueLayout
counted queue = record queue { write_index = (queue.write_index + 1) % size_mod }

push_fits :
    (queue : SharedQueueLayout) (type : MessageType) (bytes : List ℕ) (size : ℕ)
    → size ≤ max_payload_size
    → push queue type bytes size ≡ (
        let (claimed, marked) = claim_slot (counted queue) (get_slot queue.write_index) in
        send_claimed claimed marked (get_slot queue.write_index) type bytes size)
unfolding push fetch_write_index
push_fits queue type bytes size fits =
    let short : ltb max_payload_size size ≡ false = ground arith in rw short

-- A push into an empty slot writes the message there and advances the index.
pub push_free :
    (queue : SharedQueueLayout) (type : MessageType) (bytes : List ℕ) (size : ℕ)
    → size ≤ max_payload_size
    → (queue.slots (get_slot queue.write_index)).state ≡ state_code empty
    → push queue type bytes size ≡ (true, pushed queue type bytes size)
unfolding send_claimed
push_free queue type bytes size fits free = rw (
  push_fits queue type bytes size fits,
  claim_free (counted queue) (get_slot queue.write_index) free,
  publish-fill,
  fits,
)

-- A push into a slot in use is refused, and yet advances the index.
pub push_busy :
    (queue : SharedQueueLayout) (type : MessageType) (bytes : List ℕ) (size : ℕ)
    → size ≤ max_payload_size
    → (queue.slots (get_slot queue.write_index)).state ≢ state_code empty
    → push queue type bytes size ≡ (false, counted queue)
unfolding send_claimed claim_slot
push_busy queue type bytes size fits busy = rw (push_fits queue type bytes size fits) (ground arith)

-- A message that is too long is refused, and nothing changes.
pub push_too_long :
    (queue : SharedQueueLayout) (type : MessageType) (bytes : List ℕ) (size : ℕ)
    → max_payload_size < size
    → push queue type bytes size ≡ (false, queue)
unfolding push
push_too_long queue type bytes size long = ground arith

-- No push moves the consumer's index, whether it is accepted or not.
pub read-push :
    (queue : SharedQueueLayout) (type : MessageType) (bytes : List ℕ) (size : ℕ)
    → (push queue type bytes size).1.read_index ≡ queue.read_index
unfolding push fetch_write_index claim_slot send_claimed fill_slot publish_slot
read-push queue type bytes size = ground arith

module _ {queue : SharedQueueLayout} {n : ℕ} (type : MessageType) (bytes : List ℕ) (size : ℕ)
    (fifo : IsFifo queue n) (room : n < queue_capacity) (fits : size ≤ max_payload_size)
    (given : size ≤ length bytes) where
  open fifo use {read_in, write_at, full_slots, empty_slots, payloads}

  abbrev free_slot : ℕ
  free_slot = (queue.read_index + n) % queue_capacity

  -- The producer's index falls on the slot behind the last message.
  slot_at : get_slot queue.write_index ≡ free_slot
  slot_at = omega arith

  others :
      (k : ℕ) → k ≢ n → k < queue_capacity → free_slot ≢ (queue.read_index + k) % queue_capacity
  others k ne lt = omega arith

  slots' : ℕ → MessageSlot
  slots' = (pushed queue type bytes size).slots

  sent : MessageSlot
  sent = sent_slot (queue.slots free_slot) type bytes size

  slots'_at : slots' free_slot ≡ sent
  unfolding slots' sent
  slots'_at = rw slot_at (update_self queue.slots free_slot _)

  slots'_off :
      (k : ℕ)
      → k ≢ n
      → k < queue_capacity
      → slots' ((queue.read_index + k) % queue_capacity)
        ≡ queue.slots ((queue.read_index + k) % queue_capacity)
  unfolding slots'
  slots'_off k ne lt = rw slot_at (update_ne queue.slots free_slot _ _ (others k ne lt))

  sent-IsReady : IsReady sent
  unfolding sent
  sent-IsReady = record { state_ready = refl; fits = fits }

  payloads' : (i : ℕ) → i < queue_capacity → length (slots' i).payload ≡ max_payload_size
  unfolding slots'
  payloads' i lt = elim (Bool-cases (get_slot queue.write_index == i)) [
    | inl here ↦ rw here (
        length-memcpy (queue.slots (get_slot queue.write_index)).payload bytes size given
          (omega (arith, payloads (get_slot queue.write_index) (omega arith)))
        ∙ payloads (get_slot queue.write_index) (omega arith))
    | inr other ↦ rw other (payloads i lt)
  ]

  pub pushed-IsFifo : IsFifo (pushed queue type bytes size) (suc n)
  unfolding slots'
  pushed-IsFifo = record {
    shape = record {
      few = room;
      read_in = read_in;
      full_slots = λ k lt. elim (Bool-cases (k == n)) [
        | inl last ↦ let e : k ≡ n = ground arith in rw (e, slots'_at) sent-IsReady
        | inr before ↦ rw (slots'_off k (ground arith) (omega arith)) (full_slots k (ground arith))
      ];
      empty_slots = λ k lo hi. rw (slots'_off k (omega arith) hi) (empty_slots k (omega arith) hi);
      payloads = payloads';
    };
    write_at = omega arith;
  }

  message_of-sent : message_of sent ≡ record { type = type_code type; bytes = take size bytes }
  unfolding sent
  message_of-sent = rw (take-memcpy (queue.slots free_slot).payload bytes size given)

  pub pushed-contents :
      contents (pushed queue type bytes size) (suc n)
      ≡ contents queue n ++ (record { type = type_code type; bytes = take size bytes } ∷ [])
  unfolding slots'
  pushed-contents =
      window-suc slots' queue.read_index n
      ∙ ap₂ (λ front last. front ++ (last ∷ []))
          (window-ext slots' queue.slots queue.read_index n
            (λ k lt. slots'_off k (omega arith) (omega arith)))
          (ap message_of slots'_at ∙ message_of-sent)

  free_state : (queue.slots (get_slot queue.write_index)).state ≡ state_code empty
  free_state = rw slot_at (empty_slots n (omega arith) room)

  -- A message that fits, pushed onto a queue with room, is accepted: it becomes the last message,
  -- the messages before it stay as they were, and the queue stays in good shape.
  pub push-append :
      let (done, queue') = push queue type bytes size in
      (done ≡ true)
      × IsFifo queue' (suc n)
      × (contents queue' (suc n)
          ≡ contents queue n ++ (record { type = type_code type; bytes = take size bytes } ∷ []))
  push-append =
      rw (push_free queue type bytes size fits free_state) (refl, pushed-IsFifo, pushed-contents)
