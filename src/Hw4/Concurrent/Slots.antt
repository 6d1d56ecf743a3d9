-- ===== src/Hw4/Concurrent/Slots.antt =====
-- Who may touch a slot of the queue, and what a process knows of it.
use mathlib.Core.Path.{subst}
use hse_multithreading_examp.Hw4.Concurrent.{
  length, Pc, producer, push_fetch, push_claim, push_header, push_payload, push_publish, consumer,
  pop_state, pop_header, pop_copy, pop_clear, pop_free, pop_advance, popped, header_of,
}
use hse_multithreading_examp.Prelude.{
  ℕ, suc, ◌≤◌, ◌≡◌, refl, Bool, true, false, Option, none, some, List, take, arith, if◌then◌else◌,
}
use hse_multithreading_examp.Hw4.Protocol.{
  max_payload_size, MessageType, MessageHeader, MessageSlot, SharedQueueLayout,
}
use hse_multithreading_examp.Hw4.Queue.{get_slot}

-- The slot that a process has to itself, plus 1, or 0.
abbrev pub uses : Pc → ℕ
uses (push_header t b n s) = suc s
uses (push_payload t b n s) = suc s
uses (push_publish t b n s) = suc s
uses (pop_header i) = suc (get_slot i)
uses (pop_copy i h) = suc (get_slot i)
uses (pop_clear i h r) = suc (get_slot i)
uses (pop_free i h r) = suc (get_slot i)
uses _ = 0

abbrev pub is_consumer : Pc → Bool
is_consumer producer = false
is_consumer (push_fetch t b n) = false
is_consumer (push_claim t b n s) = false
is_consumer (push_header t b n s) = false
is_consumer (push_payload t b n s) = false
is_consumer (push_publish t b n s) = false
is_consumer _ = true

-- The consumer has cleared the slot and is about to free it.
abbrev pub frees : Pc → ℕ
frees (pop_free i h r) = suc (get_slot i)
frees _ = 0

module _ (Sent : MessageType → List ℕ → ℕ → Type 0) where
  -- The call's arguments.
  abbrev pub IsCall : MessageType → List ℕ → ℕ → Type 0
  IsCall t b n = Sent t b n × (n ≤ max_payload_size) × (n ≤ length b)

  -- The header and the bytes are those of one call.
  abbrev pub IsSent : MessageHeader → List ℕ → Type 0
  IsSent h bytes =
      (t : MessageType) × (b : List ℕ) × (n : ℕ) × Sent t b n
      × (h ≡ header_of t n)
      × (bytes ≡ take n b)

  abbrev pub IsWhole : MessageSlot → Type 0
  IsWhole slot = IsSent slot.header (take slot.header.length slot.payload)

  abbrev pub IsReceived : MessageHeader → Option (List ℕ) → Type 0
  IsReceived h none = Unit
  IsReceived h (some bytes) = IsSent h bytes

  -- What a process knows of the queue.
  abbrev pub Knows : SharedQueueLayout → Pc → Type 0
  Knows m (push_fetch t b n) = IsCall t b n
  Knows m (push_claim t b n s) = IsCall t b n
  Knows m (push_header t b n s) = IsCall t b n × ((m.slots s).state ≡ 1)
  Knows m (push_payload t b n s) =
      IsCall t b n × ((m.slots s).state ≡ 1) × ((m.slots s).header ≡ header_of t n)
  Knows m (push_publish t b n s) = ((m.slots s).state ≡ 1) × IsWhole (m.slots s)
  Knows m (pop_header i) = ((m.slots (get_slot i)).state ≡ 2) × IsWhole (m.slots (get_slot i))
  Knows m (pop_copy i h) =
      ((m.slots (get_slot i)).state ≡ 2)
      × IsWhole (m.slots (get_slot i))
      × ((m.slots (get_slot i)).header ≡ h)
  Knows m (pop_clear i h r) = ((m.slots (get_slot i)).state ≡ 2) × IsReceived h r
  Knows m (pop_free i h r) = ((m.slots (get_slot i)).state ≡ 2) × IsReceived h r
  Knows m (pop_advance i h r) = IsReceived h r
  Knows m (popped h r) = IsReceived h r
  Knows m _ = Unit

  at_slot :
      (m : SharedQueueLayout) (a b v : ℕ)
      → (m.slots a).state ≡ v
      → suc a ≡ suc b
      → (m.slots b).state ≡ v
  at_slot m a b v h e = subst (λ x. (m.slots x).state ≡ v) (omega arith) h

  -- The state of the slot that a process has: writing for a producer, ready for the consumer.
  pub state_used :
      (m : SharedQueueLayout) (q : Pc) (s : ℕ)
      → Knows m q
      → uses q ≡ suc s
      → (m.slots s).state ≡ (if is_consumer q then 2 else 1)
  state_used m (push_header t b n v) s k e = at_slot m v s 1 k.1 e
  state_used m (push_payload t b n v) s k e = at_slot m v s 1 k.1 e
  state_used m (push_publish t b n v) s k e = at_slot m v s 1 k.0 e
  state_used m (pop_header i) s k e = at_slot m (get_slot i) s 2 k.0 e
  state_used m (pop_copy i h) s k e = at_slot m (get_slot i) s 2 k.0 e
  state_used m (pop_clear i h r) s k e = at_slot m (get_slot i) s 2 k.0 e
  state_used m (pop_free i h r) s k e = at_slot m (get_slot i) s 2 k.0 e
  state_used m producer s k e = absurd (omega arith)
  state_used m (push_fetch t b n) s k e = absurd (omega arith)
  state_used m (push_claim t b n v) s k e = absurd (omega arith)
  state_used m consumer s k e = absurd (omega arith)
  state_used m (pop_state i) s k e = absurd (omega arith)
  state_used m (pop_advance i h r) s k e = absurd (omega arith)
  state_used m (popped h r) s k e = absurd (omega arith)

  -- What is known of other slots lasts.
  pub still-Knows :
      (m m' : SharedQueueLayout) (q : Pc)
      → Knows m q
      → ((s : ℕ) → uses q ≡ suc s → m'.slots s ≡ m.slots s)
      → Knows m' q
  still-Knows m m' producer k same = tt
  still-Knows m m' (push_fetch t b n) k same = k
  still-Knows m m' (push_claim t b n s) k same = k
  still-Knows m m' (push_header t b n s) k same = rw (same s refl) k
  still-Knows m m' (push_payload t b n s) k same = rw (same s refl) k
  still-Knows m m' (push_publish t b n s) k same = rw (same s refl) k
  still-Knows m m' consumer k same = tt
  still-Knows m m' (pop_state i) k same = tt
  still-Knows m m' (pop_header i) k same = rw (same (get_slot i) refl) k
  still-Knows m m' (pop_copy i h) k same = rw (same (get_slot i) refl) k
  still-Knows m m' (pop_clear i h r) k same = rw (same (get_slot i) refl) k
  still-Knows m m' (pop_free i h r) k same = rw (same (get_slot i) refl) k
  still-Knows m m' (pop_advance i h r) k same = k
  still-Knows m m' (popped h r) k same = k
