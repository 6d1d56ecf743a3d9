-- ===== src/Hw4/Concurrent.antt =====
-- try_push_message and try_pop_message of hw4/ipc_queue.cpp taken apart: any number of producers and
-- one consumer, one access to the shared memory a step.
pub mod Slots
pub mod Steps
pub mod Effects
pub mod Whole
pub mod Safety
pub mod Balance
pub mod WaitFree
mod Tests
use hse_multithreading_examp.Prelude.{
  ℕ, zero, suc, ◌+◌, ◌%◌, ◌^◌, ◌≤◌, ◌<◌, ◌≡◌, ◌≢◌, ◌⊎◌, Bool, true, false, Option, none, some, List,
  ltb, ◌==◌, if◌then◌else◌, take, memcpy, length,
}
use hse_multithreading_examp.Threads.{System}
use hse_multithreading_examp.Hw4.Protocol.{
  max_payload_size, size_mod, MessageType, type_code, state_code, empty, ready, MessageHeader,
  MessageSlot, SharedQueueLayout,
}
use hse_multithreading_examp.Hw4.Queue.{
  cleared, get_slot, write_slot, fetch_write_index, claim_slot, publish_slot, init_queue,
}

-- Where a process stands in a call, with its locals; `slot` is the slot that get_slot gave. `taken` is
-- what was copied to `out_buffer`, if the type was the expected one.
pub data Pc : Type 0 where
  producer : Pc
  push_fetch : (type : MessageType) (bytes : List ℕ) (length : ℕ) → Pc
  push_claim : (type : MessageType) (bytes : List ℕ) (length slot : ℕ) → Pc
  push_header : (type : MessageType) (bytes : List ℕ) (length slot : ℕ) → Pc
  push_payload : (type : MessageType) (bytes : List ℕ) (length slot : ℕ) → Pc
  push_publish : (type : MessageType) (bytes : List ℕ) (length slot : ℕ) → Pc
  consumer : Pc
  pop_state : (index : ℕ) → Pc
  pop_header : (index : ℕ) → Pc
  pop_copy : (index : ℕ) (header : MessageHeader) → Pc
  pop_clear : (index : ℕ) (header : MessageHeader) (taken : Option (List ℕ)) → Pc
  pop_free : (index : ℕ) (header : MessageHeader) (taken : Option (List ℕ)) → Pc
  pop_advance : (index : ℕ) (header : MessageHeader) (taken : Option (List ℕ)) → Pc
  popped : (header : MessageHeader) (taken : Option (List ℕ)) → Pc

-- The header that a push writes, and the payload over an old one.
abbrev pub header_of : MessageType → ℕ → MessageHeader
header_of type length = record { type = type_code type; length = length % 2 ^ 32 }

unfoldable pub payload_of : List ℕ → List ℕ → ℕ → List ℕ
payload_of old bytes length = if ltb 0 length then memcpy old bytes length else old

-- `Sent type bytes length` says that some producer calls try_push_message with these. `data` points to
-- at least `length` bytes.
-- A call that returns at its first tests, before any access to the queue, changes nothing and is no
-- move.
module _ (Sent : MessageType → List ℕ → ℕ → Type 0) (expected_type : MessageType)
    (buffer_size : ℕ) where
  pub data Move (m : SharedQueueLayout) : Pc → SharedQueueLayout → Pc → Type 0 where
    push_call :
        {t : MessageType} {b : List ℕ} {n : ℕ}
        → Sent t b n
        → n ≤ length b
        → n ≤ max_payload_size
        → Move m producer m (push_fetch t b n)
    fetch :
        {t : MessageType} {b : List ℕ} {n : ℕ}
        → Move m
            (push_fetch t b n)
            (fetch_write_index m).1
            (push_claim t b n (get_slot (fetch_write_index m).0))
    claim :
        {t : MessageType} {b : List ℕ} {n s : ℕ}
        → (claim_slot m s).0 ≡ true
        → Move m (push_claim t b n s) (claim_slot m s).1 (push_header t b n s)
    claim_fails :
        {t : MessageType} {b : List ℕ} {n s : ℕ}
        → (claim_slot m s).0 ≡ false
        → Move m (push_claim t b n s) (claim_slot m s).1 producer
    write_header :
        {t : MessageType} {b : List ℕ} {n s : ℕ}
        → Move m
            (push_header t b n s)
            (write_slot m s (record (m.slots s) { header = header_of t n }))
            (push_payload t b n s)
    write_payload :
        {t : MessageType} {b : List ℕ} {n s : ℕ}
        → Move m
            (push_payload t b n s)
            (write_slot m s (record (m.slots s) { payload = payload_of (m.slots s).payload b n }))
            (push_publish t b n s)
    publish :
        {t : MessageType} {b : List ℕ} {n s : ℕ}
        → Move m (push_publish t b n s) (publish_slot m s) producer
    pop_call : Move m consumer m (pop_state m.read_index)
    not_ready :
        {i : ℕ} → (m.slots (get_slot i)).state ≢ state_code ready → Move m (pop_state i) m consumer
    is_ready :
        {i : ℕ}
        → (m.slots (get_slot i)).state ≡ state_code ready
        → Move m (pop_state i) m (pop_header i)
    refuse :
        {i : ℕ}
        → (max_payload_size < (m.slots (get_slot i)).header.length)
          ⊎ (buffer_size < (m.slots (get_slot i)).header.length)
        → Move m (pop_header i) m consumer
    load_header :
        {i : ℕ}
        → (m.slots (get_slot i)).header.length ≤ max_payload_size
        → (m.slots (get_slot i)).header.length ≤ buffer_size
        → Move m (pop_header i) m (pop_copy i (m.slots (get_slot i)).header)
    copy_out :
        {i : ℕ} {h : MessageHeader}
        → h.type ≡ type_code expected_type
        → Move m
            (pop_copy i h)
            m
            (pop_clear i h (some (take h.length (m.slots (get_slot i)).payload)))
    pass_over :
        {i : ℕ} {h : MessageHeader}
        → h.type ≢ type_code expected_type
        → Move m (pop_copy i h) m (pop_clear i h none)
    clear :
        {i : ℕ} {h : MessageHeader} {r : Option (List ℕ)}
        → Move m
            (pop_clear i h r)
            (write_slot m (get_slot i) (record (m.slots (get_slot i)) {
              header = cleared.header;
              payload = cleared.payload;
            }))
            (pop_free i h r)
    free :
        {i : ℕ} {h : MessageHeader} {r : Option (List ℕ)}
        → Move m
            (pop_free i h r)
            (write_slot m (get_slot i) (record (m.slots (get_slot i)) { state = state_code empty }))
            (pop_advance i h r)
    advance :
        {i : ℕ} {h : MessageHeader} {r : Option (List ℕ)}
        → Move m (pop_advance i h r) (record m { read_index = (i + 1) % size_mod }) (popped h r)
    return : {h : MessageHeader} {r : Option (List ℕ)} → Move m (popped h r) m consumer

-- A queue that was just initialised, the consumer, and producers.
abbrev pub start : SharedQueueLayout → System SharedQueueLayout Pc
start raw = record { mem = init_queue raw; pc = λ i. if i == 0 then consumer else producer }
