-- ===== src/Hw4/Queue/Overrun.antt =====
-- `try_push_message` of hw4/ipc_queue.cpp on a full queue: the refused push has moved
-- `write_index`, and the producers' index stays out of step with the consumer's.
use hse_multithreading_examp.Prelude.{
  ap, eqb_ne, ℕ, zero, suc, ◌+◌, ◌%◌, ◌≤◌, ◌≡◌, refl, ◌≢◌, true, false, List, arith,
}
use hse_multithreading_examp.Hw4.Protocol.{
  queue_capacity, max_payload_size, size_mod, MessageType, state_code, empty, ready, MessageHeader,
  SharedQueueLayout,
}
use hse_multithreading_examp.Hw4.Queue.{get_slot, push, pop}
use hse_multithreading_examp.Hw4.Queue.Contents.{HasMessages, IsFifo}
use hse_multithreading_examp.Hw4.Queue.Push.{counted, pushed, push_busy, push_free}
use hse_multithreading_examp.Hw4.Queue.Pop.{
  head_slot, head-empty, head-IsReady, advanced, advanced-HasMessages, pop_fits, pop_not_ready,
  refused,
}

module _ (expected : MessageType) (buffer : List ℕ) (header : MessageHeader) where
  -- `n` calls of `try_pop_message` with a buffer for the longest message.
  unfoldable pub drain : ℕ → SharedQueueLayout → SharedQueueLayout
  drain zero queue = queue
  drain (suc n) queue = drain n (pop queue expected buffer max_payload_size header).queue

  pop-advanced :
      {queue : SharedQueueLayout} {n : ℕ}
      → HasMessages queue (suc n)
      → (pop queue expected buffer max_payload_size header).queue ≡ advanced queue
  pop-advanced {queue} shape =
      rw
        (pop_fits queue expected buffer max_payload_size header (head-IsReady shape).state_ready
          (head-IsReady shape).fits (head-IsReady shape).fits)
        (ground arith)

  drain-suc :
      (n : ℕ) (queue : SharedQueueLayout)
      → HasMessages queue (suc n)
      → drain (suc n) queue ≡ drain n (advanced queue)
  unfolding drain
  drain-suc n queue shape = ap (drain n) (pop-advanced shape)

  drain-zero : (queue : SharedQueueLayout) → drain 0 queue ≡ queue
  unfolding drain
  drain-zero queue = refl

  -- Reading every message leaves all slots empty, moves `read_index` past them, and leaves
  -- `write_index` alone.
  pub drain-HasMessages :
      (n : ℕ) (queue : SharedQueueLayout)
      → HasMessages queue n
      → HasMessages (drain n queue) 0
        × ((drain n queue).read_index ≡ (queue.read_index + n) % size_mod)
        × ((drain n queue).write_index ≡ queue.write_index)
  drain-HasMessages zero queue shape =
      rw (drain-zero queue) (shape, omega (arith, shape.read_in), refl)
  drain-HasMessages (suc n) queue shape =
      let (after, read, written) =
        drain-HasMessages n (advanced queue) (advanced-HasMessages shape) in
      rw (drain-suc n queue shape) (after, omega (arith, read), written)

  counted-HasMessages :
      {queue : SharedQueueLayout} {n : ℕ} → HasMessages queue n → HasMessages (counted queue) n
  counted-HasMessages shape = record {
    few = shape.few;
    read_in = shape.read_in;
    full_slots = shape.full_slots;
    empty_slots = shape.empty_slots;
    payloads = shape.payloads;
  }

  -- With no message left, a push just ahead of the consumer's slot is accepted and not found.
  pushed_ahead :
      (queue : SharedQueueLayout) (type : MessageType) (bytes : List ℕ) (size : ℕ)
      → HasMessages queue 0
      → queue.write_index % queue_capacity ≡ (queue.read_index + 1) % queue_capacity
      → size ≤ max_payload_size
      → let (done, queue') = push queue type bytes size in
        (done ≡ true)
        × (pop queue' expected buffer max_payload_size header ≡ refused queue' buffer header)
  pushed_ahead queue type bytes size shape ahead fits =
      rw (push_free queue type bytes size fits free) (
        refl,
        pop_not_ready (pushed queue type bytes size) expected buffer max_payload_size header
            not_ready,
      )
    where
      free : (queue.slots (get_slot queue.write_index)).state ≡ state_code empty
      free = rw ahead (shape.empty_slots 1 (omega arith) (omega arith))

      elsewhere : get_slot queue.write_index ≢ get_slot queue.read_index
      elsewhere = omega arith

      not_ready : (head_slot (pushed queue type bytes size)).state ≢ state_code ready
      not_ready = rw (eqb_ne _ _ elsewhere) (omega (arith, head-empty shape))

  -- A queue of 16 messages refuses a push. When all 16 have been read, the next push is accepted,
  -- and yet the consumer, whose `read_index` is at another slot, finds nothing.
  pub overrun_hides :
      (queue : SharedQueueLayout) (type type' : MessageType) (bytes bytes' : List ℕ)
      (size size' : ℕ)
      → IsFifo queue queue_capacity
      → size ≤ max_payload_size
      → size' ≤ max_payload_size
      → let (done, queue1) = push queue type bytes size in
        let queue2 = drain queue_capacity queue1 in
        let (done', queue3) = push queue2 type' bytes' size' in
        (done ≡ false)
        × (done' ≡ true)
        × (pop queue3 expected buffer max_payload_size header ≡ refused queue3 buffer header)
  overrun_hides queue type type' bytes bytes' size size' fifo fits fits' =
      let (shape, read, written) =
        drain-HasMessages queue_capacity (counted queue) (counted-HasMessages fifo.shape) in
      let (taken, hidden) =
        pushed_ahead (drain queue_capacity (counted queue)) type' bytes' size' shape
          (omega (arith, read, written, fifo.write_at)) fits' in
      rw (push_busy queue type bytes size fits full) (refl, taken, hidden)
    where
      same_slot : get_slot queue.write_index ≡ (queue.read_index + 0) % queue_capacity
      same_slot = omega (arith, fifo.write_at)

      full : (queue.slots (get_slot queue.write_index)).state ≢ state_code empty
      full = rw same_slot (omega (arith, (fifo.full_slots 0 (omega arith)).state_ready))
