-- ===== src/Hw4/Tests.antt =====
-- Runs of hw4's queue and of its programs' loops at concrete inputs.
use hse_multithreading_examp.Prelude.{
  inr, inl, ◌==◌, Bool-cases, update, ℕ, ◌≡◌, refl, true, false, none, some, List, [], ◌∷◌, ◌++◌,
  arith, replicate,
}
use hse_multithreading_examp.Hw4.Protocol.{queue_capacity, text, number, SharedQueueLayout}
use mathlib.Core.Path.{subst}
use hse_multithreading_examp.Hw4.Mailbox
use hse_multithreading_examp.Hw4.Mailbox.{Message, Op, send, receive, Reply, Allowed}
use hse_multithreading_examp.Hw4.Queue.{init_queue, push, pop}
use hse_multithreading_examp.Hw4.Queue.Contents.{
  HasMessages, IsFifo, contents, window-zero, message_of,
}
use hse_multithreading_examp.Hw4.Queue.Init.{init_queue-IsFifo, read-init_queue}
use hse_multithreading_examp.Hw4.Queue.Pop.{refused}
use hse_multithreading_examp.Hw4.Queue.Refine.{Holds, run, run_refines, blank_header}
use hse_multithreading_examp.Hw4.Queue.Overrun.{drain, overrun_hides}
use hse_multithreading_examp.Hw4.Consumer.{Reading, read_all, start_reading}
use hse_multithreading_examp.Hw4.Consumer.Loop.{AllTerminated, HasZero, HasRead, read_all-HasRead}
use hse_multithreading_examp.Hw4.Consumer.Total.{read_all_total, ready_slots-le, TextsEnd}
use hse_multithreading_examp.Hw4.EndToEnd.{
  producers, read-producers, producers-append, producers_then_consumer, rounds, printed,
}

-- Memory that nobody has written to in an orderly way.
abbrev raw : SharedQueueLayout
raw = record {
  meta = record { magic = 1; version = 2; capacity = 3; max_payload_size = 4 };
  write_index = 5;
  read_index = 6;
  slots = λ i. record { state = 2; header = record { type = 1; length = i }; payload = [] };
}

abbrev fresh : SharedQueueLayout
fresh = init_queue raw

fresh-IsFifo : IsFifo fresh 0
fresh-IsFifo = (init_queue-IsFifo raw).0

abbrev hello : List ℕ
hello = 104 ∷ 105 ∷ 0 ∷ []

fresh-Holds : Holds fresh []
fresh-Holds = record {
  count = 0;
  fifo = fresh-IsFifo;
  same = window-zero fresh.slots fresh.read_index;
}

-- A number is sent and dropped, a text is sent and received, and then nothing is left.
abbrev script : List Op
script =
    send number (57 ∷ 48 ∷ []) 2
    ∷ send text hello 3
    ∷ receive text (replicate 4 0) 4
    ∷ receive text (replicate 4 0) 2
    ∷ receive text (replicate 4 0) 4
    ∷ receive text (replicate 4 0) 4
    ∷ []

script-Allowed : Allowed [] script
unfolding Allowed
script-Allowed = omega arith

run_refines_example : run fresh script ≡ Mailbox.run [] script
run_refines_example = run_refines script fresh-Holds script-Allowed

mailbox_replies :
    Mailbox.run [] script
    ≡ (true, none)
      ∷ (true, none)
      ∷ (false, none)
      ∷ (false, none)
      ∷ (true, some (record { type = 1; bytes = hello }))
      ∷ (false, none)
      ∷ []
unfolding Mailbox.run Mailbox.put Mailbox.get
mailbox_replies = refl

abbrev full : SharedQueueLayout
full = producers 8 fresh

full_lem : IsFifo full 16 × (contents full 16 ≡ contents fresh 0 ++ rounds 8)
full_lem = producers-append 8 fresh 0 16 refl (omega arith) fresh-IsFifo

overrun_hides_example :
    let (done, queue1) = push full text hello 3 in
    let queue2 = drain text (replicate 256 0) blank_header 16 queue1 in
    let (done', queue3) = push queue2 text hello 3 in
    (done ≡ false)
    × (done' ≡ true)
    × (pop queue3 text (replicate 256 0) 256 blank_header
        ≡ refused queue3 (replicate 256 0) blank_header)
overrun_hides_example =
    overrun_hides text (replicate 256 0) blank_header full text text hello hello 3 3 full_lem.0
      (omega arith) (omega arith)

-- A queue that is not valid, with a text in a slot and the rest of the memory as it was.
abbrev one_text : SharedQueueLayout
one_text = record raw {
  slots =
      update (λ _. record { state = 0; header = blank_header; payload = [] }) 0
        (record { state = 2; header = record { type = 1; length = 2 }; payload = 104 ∷ 0 ∷ [] });
}

one_text-TextsEnd : TextsEnd one_text
one_text-TextsEnd i lt at_ready is = elim (Bool-cases (0 == i)) [
  | inl first ↦
      let e : 0 ≡ i = (ground arith) in
      subst (λ k. HasZero (message_of (one_text.slots k)).bytes) e tt
  | inr other ↦ absurd (let z : 0 ≡ 2 = rw other at at_ready in omega arith)
]

read_all_total_example : (s' : Reading) × (read_all 17 (start_reading one_text) ≡ some s')
read_all_total_example =
    read_all_total 17 (start_reading one_text) one_text-TextsEnd
      (omega (arith, ready_slots-le queue_capacity one_text.slots))

abbrev two_waiting : SharedQueueLayout
two_waiting = producers 1 fresh

two_waiting_lem : IsFifo two_waiting 2 × (contents two_waiting 2 ≡ contents fresh 0 ++ rounds 1)
two_waiting_lem = producers-append 1 fresh 0 2 refl (omega arith) fresh-IsFifo

two_waiting-AllTerminated : AllTerminated (contents two_waiting 2)
two_waiting-AllTerminated =
    rw (two_waiting_lem.1, window-zero fresh.slots fresh.read_index) ((λ _. tt), ((λ _. tt), tt))

read_all-HasRead_example :
    (s' : Reading) × (read_all 3 (start_reading two_waiting) ≡ some s')
    × HasRead (start_reading two_waiting) (contents two_waiting 2) s'
read_all-HasRead_example =
    read_all-HasRead 2 3 (start_reading two_waiting) two_waiting_lem.0.shape
      two_waiting-AllTerminated (omega (arith, read-producers 1 fresh, read-init_queue raw))
      (omega arith)

producers_then_consumer_example :
    (s : Reading) × (read_all 7 (start_reading (producers 3 (init_queue raw))) ≡ some s)
    × (s.received_text_count ≡ 3)
    × (s.skipped_count ≡ 3)
    × (s.lines ≡ printed 3)
    × HasMessages s.queue 0
producers_then_consumer_example = producers_then_consumer raw 3 (omega arith)
