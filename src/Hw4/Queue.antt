-- ===== src/Hw4/Queue.antt =====
-- hw4/ipc_queue.cpp: the operations of the queue in shared memory.
pub mod Contents
pub mod Init
pub mod Push
pub mod Pop
pub mod Refine
pub mod Overrun
use hse_multithreading_examp.Prelude.{
  ℕ, zero, suc, ◌+◌, ◌%◌, ◌^◌, Bool, true, false, not, Option, none, some, List, ltb, ◌==◌,
  if◌then◌else◌, replicate, memcpy, update,
}
use hse_multithreading_examp.Hw4.Protocol.{
  protocol_magic, protocol_version, queue_capacity, max_payload_size, size_mod, MessageType,
  type_code, unknown, text, number, state_code, empty, writing, ready, MessageHeader, MessageSlot,
  SharedQueueLayout,
}

-- The value of a slot that `init_queue` and `try_pop_message` leave.
unfoldable pub cleared : MessageSlot
cleared = record {
  state = state_code empty;
  header = record { type = type_code unknown; length = 0 };
  payload = replicate max_payload_size 0;
}

-- The loop of `init_queue`, with `n` rounds left from index `i` on.
unfoldable pub init_slots : ℕ → ℕ → (ℕ → MessageSlot) → ℕ → MessageSlot
init_slots zero i slots = slots
init_slots (suc n) i slots = init_slots n (i + 1) (update slots i cleared)

-- The queue's old contents are whatever the memory held.
unfoldable pub init_queue : SharedQueueLayout → SharedQueueLayout
init_queue queue = record {
  meta = record {
    magic = protocol_magic;
    version = protocol_version;
    capacity = queue_capacity;
    max_payload_size = max_payload_size;
  };
  write_index = 0;
  read_index = 0;
  slots = init_slots queue_capacity 0 queue.slots;
}

unfoldable pub is_queue_valid : SharedQueueLayout → Bool
is_queue_valid queue =
    if not (queue.meta.magic == protocol_magic)
    then false
    else if not (queue.meta.version == protocol_version)
    then false
    else if not (queue.meta.capacity == queue_capacity)
    then false
    else if not (queue.meta.max_payload_size == max_payload_size)
    then false
    else true

-- A pointer to a slot is its place in the array.
abbrev pub get_slot : ℕ → ℕ
get_slot index = index % queue_capacity

abbrev pub write_slot : SharedQueueLayout → ℕ → MessageSlot → SharedQueueLayout
write_slot queue slot value = record queue { slots = update queue.slots slot value }

-- `write_index.fetch_add(1)`: the old value and the queue after it.
unfoldable pub fetch_write_index : SharedQueueLayout → ℕ × SharedQueueLayout
fetch_write_index queue =
    (queue.write_index, record queue { write_index = (queue.write_index + 1) % size_mod })

-- `state.compare_exchange_strong(EMPTY, WRITING)`
unfoldable pub claim_slot : SharedQueueLayout → ℕ → Bool × SharedQueueLayout
claim_slot queue slot =
    if (queue.slots slot).state == state_code empty
    then (true, write_slot queue slot (record (queue.slots slot) { state = state_code writing }))
    else (false, queue)

-- The header and the payload of a claimed slot.
unfoldable pub fill_slot : SharedQueueLayout → ℕ → MessageType → List ℕ → ℕ → SharedQueueLayout
fill_slot queue slot type bytes length = write_slot queue slot (record (queue.slots slot) {
  header = record { type = type_code type; length = length % 2 ^ 32 };
  payload =
      if ltb 0 length
      then memcpy (queue.slots slot).payload bytes length
      else (queue.slots slot).payload;
})

-- `state.store(READY)`
unfoldable pub publish_slot : SharedQueueLayout → ℕ → SharedQueueLayout
publish_slot queue slot =
    write_slot queue slot (record (queue.slots slot) { state = state_code ready })

-- The rest of a push, after the compare-exchange.
unfoldable pub send_claimed :
    Bool → SharedQueueLayout → ℕ → MessageType → List ℕ → ℕ → Bool × SharedQueueLayout
send_claimed true queue slot type bytes length =
    (true, publish_slot (fill_slot queue slot type bytes length) slot)
send_claimed false queue slot type bytes length = (false, queue)

-- `try_push_message` behind its test for null pointers.
unfoldable pub push : SharedQueueLayout → MessageType → List ℕ → ℕ → Bool × SharedQueueLayout
push queue type bytes length =
    if ltb max_payload_size length
    then (false, queue)
    else (let (index, counted) = fetch_write_index queue in
        let (claimed, marked) = claim_slot counted (get_slot index) in
        send_claimed claimed marked (get_slot index) type bytes length)

-- A pointer is `none` if it is null.
unfoldable pub try_push_message :
    Option SharedQueueLayout → MessageType → Option (List ℕ) → ℕ → Bool × Option SharedQueueLayout
try_push_message none type bytes length = (false, none)
try_push_message (some queue) type none length = (false, some queue)
try_push_message (some queue) type (some bytes) length =
    let (done, queue') = push queue type bytes length in (done, some queue')

-- What `try_pop_message` returns, and what it leaves behind the caller's pointers.
pub record Popped : Type 0 where
  pub done : Bool
  pub queue : SharedQueueLayout
  pub out_buffer : List ℕ
  pub out_header : MessageHeader

-- `try_pop_message` behind its test for null pointers.
unfoldable pub pop : SharedQueueLayout → MessageType → List ℕ → ℕ → MessageHeader → Popped
pop queue expected_type out_buffer buffer_size out_header =
    let slot = queue.slots (get_slot queue.read_index) in
    let header = slot.header in
    let unchanged : Popped = record {
      done = false;
      queue = queue;
      out_buffer = out_buffer;
      out_header = out_header;
    } in
    if not (slot.state == state_code ready)
    then unchanged
    else if ltb max_payload_size header.length
    then unchanged
    else if ltb buffer_size header.length
    then unchanged
    else record {
      done = header.type == type_code expected_type;
      queue = record queue {
        slots = update queue.slots (get_slot queue.read_index) cleared;
        read_index = (queue.read_index + 1) % size_mod;
      };
      out_buffer =
          if header.type == type_code expected_type
          then if ltb 0 header.length
            then memcpy out_buffer slot.payload header.length
            else out_buffer
          else out_buffer;
      out_header = if header.type == type_code expected_type then header else out_header;
    }

unfoldable pub try_pop_message :
    Option SharedQueueLayout
    → MessageType
    → Option (List ℕ)
    → ℕ
    → Option MessageHeader
    → Bool × Option SharedQueueLayout × Option (List ℕ) × Option MessageHeader
try_pop_message (some queue) expected_type (some buffer) size (some header) =
    let r = pop queue expected_type buffer size header in
    (r.done, some r.queue, some r.out_buffer, some r.out_header)
try_pop_message queue expected_type buffer size header = (false, queue, buffer, header)
