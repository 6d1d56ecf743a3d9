-- ===== src/Hw4/EndToEnd.antt =====
-- hw4's two programs together: producers run one after the other, then the consumer.
use hse_multithreading_examp.Hw4.Queue.Contents.{HasMessages, window-zero}
use hse_multithreading_examp.Hw4.Queue.Init.{init_queue-IsFifo, read-init_queue}
use hse_multithreading_examp.Hw4.Consumer.{
  c_string, Line, received, skipped, Reading, read_all, start_reading,
}
use hse_multithreading_examp.Hw4.Consumer.Loop.{
  line_of, count_text, count_other, AllTerminated, HasRead, read_all-HasRead,
}
use hse_multithreading_examp.Prelude.{
  append-nil, some, map, ℕ, zero, suc, ◌+◌, ◌*◌, ◌≤◌, ◌≡◌, refl, sym, ◌∙◌, ap, true, List, [], ◌∷◌,
  ◌++◌, append_assoc, arith,
}
use hse_multithreading_examp.Hw4.Protocol.{queue_capacity, text, number, SharedQueueLayout}
use hse_multithreading_examp.Hw4.Mailbox.{Message}
use hse_multithreading_examp.Hw4.Queue.{push, init_queue}
use hse_multithreading_examp.Hw4.Queue.Contents.{IsFifo, contents}
use hse_multithreading_examp.Hw4.Queue.Push.{push-append, read-push}
use hse_multithreading_examp.Hw4.Producer.{number_bytes, text_bytes, send_both}

abbrev pub number_message : Message
number_message = record { type = 2; bytes = number_bytes }

abbrev pub text_message : Message
text_message = record { type = 1; bytes = text_bytes }

-- A producer that finds room for two messages sends both, in order, behind those that wait.
pub send_both-append :
    {queue : SharedQueueLayout} {n : ℕ}
    → IsFifo queue n
    → n + 2 ≤ queue_capacity
    → let (sent, queue') = send_both queue in
      (sent ≡ true)
      × IsFifo queue' (suc (suc n))
      × (contents queue' (suc (suc n)) ≡ contents queue n ++ (number_message ∷ text_message ∷ []))
unfolding send_both
send_both-append {queue} {n} fifo room =
    let first = push-append number number_bytes 4 fifo (omega arith) (omega arith) (omega arith) in
    let second = push-append text text_bytes 20 first.1 (omega arith) (omega arith) (omega arith) in
    rw (first.0, second.0)
      (
        refl,
        second.1,
        second.2
            ∙ (ap (λ t. t ++ (text_message ∷ [])) first.2
                ∙ append_assoc (contents queue n) (number_message ∷ []) (text_message ∷ [])),
      )

-- `k` runs of the producer on a queue that is there already.
unfoldable pub producers : ℕ → SharedQueueLayout → SharedQueueLayout
producers zero queue = queue
producers (suc k) queue = producers k (send_both queue).1

-- What `k` producers send.
abbrev pub rounds : ℕ → List Message
rounds zero = []
rounds (suc k) = number_message ∷ text_message ∷ rounds k

pub producers-append :
    (k : ℕ) (queue : SharedQueueLayout) (n m : ℕ)
    → m ≡ n + 2 * k
    → m ≤ queue_capacity
    → IsFifo queue n
    → IsFifo (producers k queue) m × (contents (producers k queue) m ≡ contents queue n ++ rounds k)
unfolding producers
producers-append zero queue n m e room fifo =
    let same : m ≡ n = omega arith in rw same (fifo, sym (append-nil (contents queue n)))
producers-append (suc k) queue n m e room fifo =
    let (sent, shape, both) = send_both-append fifo (omega arith) in
    let (after, all) =
      producers-append k (send_both queue).1 (suc (suc n)) m (omega arith) room shape in
    (
      after,
      all
          ∙ (ap (λ t. t ++ rounds k) both
              ∙ append_assoc (contents queue n) (number_message ∷ text_message ∷ []) (rounds k)),
    )

read-send_both : (queue : SharedQueueLayout) → (send_both queue).1.read_index ≡ queue.read_index
unfolding send_both
read-send_both queue = ground (
  arith,
  read-push queue number number_bytes 4,
  read-push (push queue number number_bytes 4).1 text text_bytes 20,
)

pub read-producers :
    (k : ℕ) (queue : SharedQueueLayout) → (producers k queue).read_index ≡ queue.read_index
unfolding producers
read-producers zero queue = refl
read-producers (suc k) queue = read-producers k (send_both queue).1 ∙ read-send_both queue

-- What the consumer prints of it.
abbrev pub printed : ℕ → List Line
printed zero = []
printed (suc k) = skipped ∷ received (c_string text_bytes) ∷ printed k

rounds-read :
    (k : ℕ)
    → (count_text (rounds k) ≡ k)
      × (count_other (rounds k) ≡ k)
      × (map line_of (rounds k) ≡ printed k)
      × AllTerminated (rounds k)
rounds-read zero = (refl, refl, refl, tt)
rounds-read (suc k) =
    let (texts, others, lines, strings) = rounds-read k in
    (
      omega (arith, texts),
      omega (arith, others),
      ap (λ t. skipped ∷ received (c_string text_bytes) ∷ t) lines,
      ((λ _. tt), ((λ _. tt), strings)),
    )

-- Up to eight producers, run one after the other on a queue that the first has made, and then the
-- consumer: it receives each text, skips each number, in the order in which they were sent, and
-- leaves the queue empty.
pub producers_then_consumer :
    (raw : SharedQueueLayout) (k : ℕ)
    → k ≤ 8
    → (s : Reading) × (read_all (2 * k + 1) (start_reading (producers k (init_queue raw))) ≡ some s)
      × (s.received_text_count ≡ k)
      × (s.skipped_count ≡ k)
      × (s.lines ≡ printed k)
      × HasMessages s.queue 0
producers_then_consumer raw k few =
    let (fifo, all) =
      producers-append k (init_queue raw) 0 (2 * k) (omega arith) (omega arith)
        (init_queue-IsFifo raw).0 in
    let (texts, others, lines, strings) = rounds-read k in
    let all' : contents (producers k (init_queue raw)) (2 * k) ≡ rounds k =
      all ∙ rw (window-zero (init_queue raw).slots (init_queue raw).read_index) in
    let (s, runs, r) =
      read_all-HasRead (2 * k) (2 * k + 1) (start_reading (producers k (init_queue raw))) fifo.shape
        (rw all' strings) (omega (arith, read-producers k (init_queue raw), read-init_queue raw))
        (omega arith) in
    let r' : HasRead (start_reading (producers k (init_queue raw))) (rounds k) s = rw all' at r in
    (
      s,
      runs,
      r'.text_counted ∙ omega (arith, texts),
      r'.other_counted ∙ omega (arith, others),
      r'.printed ∙ lines,
      r'.emptied,
    )
