-- ===== src/Hw4/Queue/Refine.antt =====
-- The queue of hw4/ipc_queue.cpp, used by one caller at a time, against the mailbox of its messages.
use hse_multithreading_examp.Hw4.Queue.Contents.{
  length-window, window-zero, IsFifo, contents, message_of,
}
use hse_multithreading_examp.Hw4.Queue.Pop.{
  head_payload, head-empty, head_slot, head-IsReady, advanced-IsFifo, advanced-contents, pop_fits,
  pop_too_long, pop_not_ready,
}
use hse_multithreading_examp.Prelude.{
  take-memcpy, ltb→lt, ℕ, zero, suc, ◌≤◌, ◌<◌, ◌≡◌, refl, sym, ◌∙◌, none, some, List, [], ◌∷◌, ◌++◌,
  arith, length, take, length-take, ltb, ◌==◌, if◌then◌else◌, ap, Bool-cases, inl, inr,
}
use hse_multithreading_examp.Hw4.Queue.{get_slot, Popped, push, pop}
use mathlib.Core.Path.{ap₂}
use hse_multithreading_examp.Hw4.Protocol.{
  queue_capacity, max_payload_size, MessageType, type_code, MessageHeader, SharedQueueLayout,
}
use hse_multithreading_examp.Hw4.Mailbox
use hse_multithreading_examp.Hw4.Mailbox.{Message, Mailbox, Op, send, receive, Reply, Allowed}
use hse_multithreading_examp.Hw4.Queue.Push.{push-append, push_too_long}

-- The queue is in good shape and holds the messages of `box`.
pub record Holds (queue : SharedQueueLayout) (box : Mailbox) : Type 0 where
  pub count : ℕ
  pub fifo : IsFifo queue count
  pub same : contents queue count ≡ box

-- What the caller of a pop finds: the result, and the message behind its pointers.
abbrev pub reply_of : Popped → Reply
reply_of r = (
  r.done,
  if r.done
      then some (record { type = r.out_header.type; bytes = take r.out_header.length r.out_buffer })
      else none,
)

abbrev pub blank_header : MessageHeader
blank_header = record { type = 0; length = 0 }

-- A client's calls in order, with what each returns.
unfoldable pub run : SharedQueueLayout → List Op → List Reply
run queue [] = []
run queue (send type bytes size ∷ ops) =
    let (done, queue') = push queue type bytes size in (done, none) ∷ run queue' ops
run queue (receive expected buffer buffer_size ∷ ops) =
    let r = pop queue expected buffer buffer_size blank_header in reply_of r ∷ run r.queue ops

-- A push does what `put` does, on a queue that has room for the message.
pub push_refines :
    {queue : SharedQueueLayout} {box : Mailbox} (type : MessageType) (bytes : List ℕ) (size : ℕ)
    → Holds queue box
    → size ≤ length bytes
    → (size ≤ max_payload_size → length box < queue_capacity)
    → let (done, queue') = push queue type bytes size in
      let (done', box') = Mailbox.put box type bytes size in (done ≡ done') × Holds queue' box'
unfolding Mailbox.put
push_refines {queue} {box} type bytes size h given room =
    elim (Bool-cases (ltb max_payload_size size)) [
      | inl long ↦ rw (long, push_too_long queue type bytes size (ltb→lt _ _ long)) (refl, h)
      | inr short ↦
          let fits : size ≤ max_payload_size = ground arith in
          let counted : h.count ≡ length box =
            sym (length-window queue.slots queue.read_index h.count) ∙ ap length h.same in
          let p = push-append type bytes size h.fifo (omega (arith, room fits)) fits given in
          rw short (
            p.0,
            record {
              count = suc h.count;
              fifo = p.1;
              same =
                  p.2
                  ∙ ap (λ t. t ++ (record { type = type_code type; bytes = take size bytes } ∷ []))
                      h.same;
            },
          )
    ]

head_bytes :
    {queue : SharedQueueLayout} {n : ℕ}
    → IsFifo queue (suc n)
    → length (message_of (head_slot queue)).bytes ≡ (head_slot queue).header.length
head_bytes {queue} fifo = omega (
  arith,
  (head-IsReady fifo.shape).fits,
  fifo.payloads (get_slot queue.read_index) (omega arith),
  length-take (head_slot queue).header.length (head_slot queue).payload,
)

pop_step :
    {queue : SharedQueueLayout} (n : ℕ) (expected : MessageType) (buffer : List ℕ) (buffer_size : ℕ)
    (header : MessageHeader)
    → IsFifo queue n
    → buffer_size ≤ length buffer
    → let r = pop queue expected buffer buffer_size header in
      let (reply, box') = Mailbox.get (contents queue n) expected buffer_size in
      (reply_of r ≡ reply) × Holds r.queue box'
unfolding Mailbox.get
pop_step {queue} zero expected buffer buffer_size header fifo given =
    rw
      (
        window-zero,
        pop_not_ready queue expected buffer buffer_size header
            (omega (arith, head-empty fifo.shape)),
      )
      (refl, record { count = zero; fifo = fifo; same = window-zero queue.slots queue.read_index })
pop_step {queue} (suc n) expected buffer buffer_size header fifo given =
    rw (advanced-contents fifo.shape, head_bytes fifo)
      (elim (Bool-cases (ltb buffer_size (head_slot queue).header.length)) [
        | inl long ↦
            rw (long, pop_too_long queue expected buffer buffer_size header (ltb→lt _ _ long))
              (refl, record { count = suc n; fifo = fifo; same = advanced-contents fifo.shape })
        | inr short ↦
            rw
              (
                short,
                pop_fits queue expected buffer buffer_size header
                    (head-IsReady fifo.shape).state_ready (head-IsReady fifo.shape).fits
                    (ground arith),
              )
              (elim (Bool-cases ((head_slot queue).header.type == type_code expected)) [
                | inl same ↦ rw same (
                  rw (
                      take-memcpy buffer (head_slot queue).payload (head_slot queue).header.length
                        (head_payload fifo.shape)),
                  record { count = n; fifo = advanced-IsFifo fifo; same = refl },
                )
                | inr other ↦
                    rw other (refl, record { count = n; fifo = advanced-IsFifo fifo; same = refl })
              ])
      ])

-- A pop does what `get` does, and hands over the same message.
pub pop_refines :
    {queue : SharedQueueLayout} {box : Mailbox} (expected : MessageType) (buffer : List ℕ)
    (buffer_size : ℕ) (header : MessageHeader)
    → Holds queue box
    → buffer_size ≤ length buffer
    → let r = pop queue expected buffer buffer_size header in
      let (reply, box') = Mailbox.get box expected buffer_size in
      (reply_of r ≡ reply) × Holds r.queue box'
pop_refines expected buffer buffer_size header h given =
    rw (← h.same) (pop_step h.count expected buffer buffer_size header h.fifo given)

-- From a queue that holds the messages of a mailbox, any calls that the contract allows get the
-- replies of the mailbox, in the same order.
pub run_refines :
    (ops : List Op) {queue : SharedQueueLayout} {box : Mailbox}
    → Holds queue box
    → Allowed box ops
    → run queue ops ≡ Mailbox.run box ops
unfolding run Mailbox.run Allowed
run_refines [] h ok = refl
run_refines (send type bytes size ∷ ops) h ok =
    let p = push_refines type bytes size h ok.0 ok.1 in
    ap₂ ◌∷◌ (ap (λ done. (done, none)) p.0) (run_refines ops p.1 ok.2)
run_refines (receive expected buffer buffer_size ∷ ops) h ok =
    let p = pop_refines expected buffer buffer_size blank_header h ok.0 in
    ap₂ ◌∷◌ p.0 (run_refines ops p.1 ok.1)
