-- ===== src/Hw4/Concurrent/Safety.antt =====
-- What the readers of a queue get under any interleaving of its producers and its consumer.
use hse_multithreading_examp.Prelude.{
  inr, inl, ℕ, ◌+◌, ◌%◌, ◌<◌, ◌≡◌, ◌≢◌, refl, some, List, arith, ◌==◌, if◌then◌else◌, Bool-cases,
}
use mathlib.Core.Path.{subst}
use hse_multithreading_examp.Threads.{System, Reach, Reach-invariant}
use hse_multithreading_examp.Hw4.Protocol.{
  queue_capacity, MessageType, MessageHeader, SharedQueueLayout,
}
use hse_multithreading_examp.Hw4.Queue.{init_queue}
use hse_multithreading_examp.Hw4.Queue.Init.{init_queue-IsFifo, read-init_queue}
use hse_multithreading_examp.Hw4.Concurrent.{Pc, producer, consumer, popped, Move, start}
use hse_multithreading_examp.Hw4.Concurrent.Slots.{uses, IsSent, Knows}
use hse_multithreading_examp.Hw4.Concurrent.Whole.{Inv, keep}

-- The state of every slot is empty after init_queue.
pub state-init_queue :
    (raw : SharedQueueLayout) (s : ℕ) → s < queue_capacity → ((init_queue raw).slots s).state ≡ 0
state-init_queue raw s lt =
    let e : ((init_queue raw).read_index + s) % 16 ≡ s = rw (read-init_queue raw) (omega arith) in
    subst (λ x. ((init_queue raw).slots x).state ≡ 0) e
      ((init_queue-IsFifo raw).0.shape.empty_slots s (omega arith) lt)

-- Every process stands before its first call.
pub at_start :
    (i : ℕ) (P : Pc → Type 0) → P consumer → P producer → P (if i == 0 then consumer else producer)
at_start i P c p = elim (Bool-cases (i == 0)) [ inl e ↦ rw e c | inr e ↦ rw e p ]

module _ (Sent : MessageType → List ℕ → ℕ → Type 0) (expected_type : MessageType)
    (buffer_size : ℕ) where
  start-Inv :
      (raw : SharedQueueLayout) → Inv Sent expected_type buffer_size (init_queue raw) (start raw).pc
  start-Inv raw = record {
    knows = λ i. at_start i (Knows Sent (init_queue raw)) tt tt;
    apart = λ i j ne nz. absurd (nz (at_start i (λ p. uses p ≡ 0) refl refl));
    one_consumer = λ i. elim (Bool-cases (i == 0)) [
      | inl e ↦ λ c. ground arith
      | inr e ↦ rw e (λ c. absurd (ground arith))
    ];
    whole = λ s lt st nf. let z = state-init_queue raw s lt in absurd (omega (arith, z, st));
  }

  pub reached :
      (raw : SharedQueueLayout) (t : System SharedQueueLayout Pc)
      → Reach (Move Sent expected_type buffer_size) (start raw) t
      → Inv Sent expected_type buffer_size t.mem t.pc
  reached raw t r =
      Reach-invariant (Move Sent expected_type buffer_size) (Inv Sent expected_type buffer_size)
        (λ m pc i m' p' inv mv. keep Sent expected_type buffer_size inv i m' p' mv) (start-Inv raw)
        r

-- However the producers and the one consumer of an initialised queue interleave, a header and the bytes
-- that a pop delivers are those of one call of try_push_message: the type, the length and the first
-- `length` bytes of its data.
pub no_torn_message :
    (Sent : MessageType → List ℕ → ℕ → Type 0) (expected_type : MessageType) (buffer_size : ℕ)
    (raw : SharedQueueLayout) (t : System SharedQueueLayout Pc) (i : ℕ) (header : MessageHeader)
    (bytes : List ℕ)
    → Reach (Move Sent expected_type buffer_size) (start raw) t
    → t.pc i ≡ popped header (some bytes)
    → IsSent Sent header bytes
no_torn_message Sent e n raw t i header bytes r at =
    subst (Knows Sent t.mem) at ((reached Sent e n raw t r).knows i)

-- However they interleave, two processes are never at the same slot: not two producers that fill it,
-- nor a producer that fills it and the consumer that reads or clears it.
pub slots_exclusive :
    (Sent : MessageType → List ℕ → ℕ → Type 0) (expected_type : MessageType) (buffer_size : ℕ)
    (raw : SharedQueueLayout) (t : System SharedQueueLayout Pc) (i j : ℕ)
    → Reach (Move Sent expected_type buffer_size) (start raw) t
    → i ≢ j
    → uses (t.pc i) ≢ 0
    → uses (t.pc i) ≢ uses (t.pc j)
slots_exclusive Sent e n raw t i j r = (reached Sent e n raw t r).apart i j
