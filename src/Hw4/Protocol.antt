-- ===== src/Hw4/Protocol.antt =====
-- hw4/ipc_queue.h: the constants and the layout of the queue in shared memory.
use hse_multithreading_examp.Prelude.{ℕ, ◌^◌, List}

abbrev pub protocol_magic : ℕ
protocol_magic = 0x48573431

abbrev pub protocol_version : ℕ
protocol_version = 1

abbrev pub queue_capacity : ℕ
queue_capacity = 16

abbrev pub max_payload_size : ℕ
max_payload_size = 256

-- `std::size_t` has 64 bits.
abbrev pub size_mod : ℕ
size_mod = 2 ^ 64

pub data MessageType : Type 0 where
  unknown text number : MessageType

-- `static_cast<std::uint32_t>` of a `MessageType`
abbrev pub type_code : MessageType → ℕ
type_code unknown = 0
type_code text = 1
type_code number = 2

pub data SlotState : Type 0 where
  empty writing ready : SlotState

-- `static_cast<std::uint32_t>` of a `SlotState`
abbrev pub state_code : SlotState → ℕ
state_code empty = 0
state_code writing = 1
state_code ready = 2

pub record MessageHeader : Type 0 where
  pub type : ℕ
  pub length : ℕ

pub record QueueMeta : Type 0 where
  pub magic : ℕ
  pub version : ℕ
  pub capacity : ℕ
  pub max_payload_size : ℕ

-- `payload` holds `max_payload_size` bytes.
pub record MessageSlot : Type 0 where
  pub state : ℕ
  pub header : MessageHeader
  pub payload : List ℕ

-- `slots` is the array of `queue_capacity` slots: every index that the code uses is below it.
pub record SharedQueueLayout : Type 0 where
  pub meta : QueueMeta
  pub write_index : ℕ
  pub read_index : ℕ
  pub slots : ℕ → MessageSlot
