-- ===== src/Hw4/Mailbox.antt =====
-- What hw4's programs may expect of their queue, with no word of slots and indices: a list of
-- messages, oldest first.
use hse_multithreading_examp.Prelude.{
  ℕ, ◌≤◌, ◌<◌, Bool, true, false, Option, none, some, List, [], ◌∷◌, ◌++◌, length, take, ltb, ◌==◌,
  if◌then◌else◌,
}
use hse_multithreading_examp.Hw4.Protocol.{queue_capacity, max_payload_size, MessageType, type_code}

-- A message as its receiver sees it: the code of its type, and its bytes.
pub record Message : Type 0 where
  pub type : ℕ
  pub bytes : List ℕ

abbrev pub Mailbox : Type 0
Mailbox = List Message

-- The calls of a client. `receive` names the type that it wants, its buffer and the buffer's size.
pub data Op : Type 0 where
  send : (type : MessageType) (bytes : List ℕ) (size : ℕ) → Op
  receive : (expected : MessageType) (buffer : List ℕ) (buffer_size : ℕ) → Op

-- What a client sees of a call: its result, and the message that it received.
abbrev pub Reply : Type 0
Reply = Bool × Option Message

unfoldable pub put : Mailbox → MessageType → List ℕ → ℕ → Bool × Mailbox
put box type bytes size =
    if ltb max_payload_size size
    then (false, box)
    else (true, box ++ (record { type = type_code type; bytes = take size bytes } ∷ []))

-- A message of another type is dropped; one that is too long for the buffer stays.
unfoldable pub get : Mailbox → MessageType → ℕ → Reply × Mailbox
get [] expected buffer_size = ((false, none), [])
get (m ∷ rest) expected buffer_size =
    if ltb buffer_size (length m.bytes)
    then ((false, none), m ∷ rest)
    else if m.type == type_code expected
    then ((true, some m), rest)
    else ((false, none), rest)

unfoldable pub run : Mailbox → List Op → List Reply
run box [] = []
run box (send type bytes size ∷ ops) =
    let (done, box') = put box type bytes size in (done, none) ∷ run box' ops
run box (receive expected buffer buffer_size ∷ ops) =
    let (reply, box') = get box expected buffer_size in reply ∷ run box' ops

-- The calls that the queue's contract allows: the sizes are true of the memory that is handed over,
-- and nothing is sent into a full mailbox.
unfoldable pub Allowed : Mailbox → List Op → Type 0
unfolding put get
Allowed box [] = Unit
Allowed box (send type bytes size ∷ ops) =
    (size ≤ length bytes)
    × (size ≤ max_payload_size → length box < queue_capacity)
    × Allowed (put box type bytes size).1 ops
Allowed box (receive expected buffer buffer_size ∷ ops) =
    (buffer_size ≤ length buffer) × Allowed (get box expected buffer_size).1 ops
