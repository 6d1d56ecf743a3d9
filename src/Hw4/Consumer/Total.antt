-- ===== src/Hw4/Consumer/Total.antt =====
-- The loop of hw4/consumer_hw4.cpp ends, whatever shape the queue is in.
use hse_multithreading_examp.Prelude.{
  eqb_refl, ℕ, zero, suc, ◌+◌, ◌≤◌, ◌<◌, ◌≡◌, refl, Bool, some, arith, ltb, ◌==◌, if◌then◌else◌,
  update, Bool-cases, true, sym, ap, ◌∙◌, drop, inl, inr, ltb_ge,
}
use hse_multithreading_examp.Hw4.Protocol.{
  max_payload_size, queue_capacity, state_code, ready, text, MessageSlot, SharedQueueLayout,
}
use hse_multithreading_examp.Hw4.Queue.{pop, cleared, get_slot}
use hse_multithreading_examp.Hw4.Queue.Contents.{cleared_lem, message_of}
use hse_multithreading_examp.Hw4.Queue.Pop.{pop_cases, pop_done, head_slot, advanced}
use hse_multithreading_examp.Hw4.Consumer.{Reading, read_all, has_zero}
use hse_multithreading_examp.Hw4.Consumer.Loop.{is_text, HasZero, has_zero-append}
use mathlib.Core.Path.{subst}

abbrev is_ready : MessageSlot → ℕ
is_ready slot = if slot.state == state_code ready then 1 else 0

-- How many of the first `n` slots are ready.
pub ready_slots : ℕ → (ℕ → MessageSlot) → ℕ
ready_slots zero slots = 0
ready_slots (suc n) slots = ready_slots n slots + is_ready (slots n)

pub ready_slots-le : (n : ℕ) (slots : ℕ → MessageSlot) → ready_slots n slots ≤ n
unfolding ready_slots
ready_slots-le zero slots = omega arith
ready_slots-le (suc n) slots = ground (arith, ready_slots-le n slots)

ready_slots-beyond :
    (n : ℕ) (slots : ℕ → MessageSlot) (i : ℕ) (slot : MessageSlot)
    → n ≤ i
    → ready_slots n (update slots i slot) ≡ ready_slots n slots
unfolding ready_slots
ready_slots-beyond zero slots i slot h = refl
ready_slots-beyond (suc n) slots i slot h = ground (arith, ready_slots-beyond n slots i slot)

-- Clearing a ready slot leaves one ready slot less.
ready_slots-cleared :
    (n : ℕ) (slots : ℕ → MessageSlot) (i : ℕ)
    → i < n
    → (slots i).state ≡ state_code ready
    → ready_slots n (update slots i cleared) + 1 ≡ ready_slots n slots
unfolding ready_slots
ready_slots-cleared zero slots i h at_ready = absurd (omega arith)
ready_slots-cleared (suc n) slots i h at_ready = elim (Bool-cases (i == n)) [
  | inl last ↦
      let here : i ≡ n = ground arith in
      rw
        (
          ← here,
          ready_slots-beyond i slots i cleared (omega arith),
          eqb_refl i,
          at_ready,
          cleared_lem.0,
        )
        (omega arith)
  | inr before ↦ rw before (omega (arith, ready_slots-cleared n slots i (ground arith) at_ready))
]

-- The loop's test for a message that was passed over.
abbrev moved : Reading → Bool
moved s =
    ltb s.queue.read_index (pop s.queue text s.buffer max_payload_size s.header).queue.read_index

-- A ready message of type TEXT holds a zero byte.
abbrev pub TextsEnd : SharedQueueLayout → Type 0
TextsEnd queue =
    (i : ℕ)
    → i < queue_capacity
    → (queue.slots i).state ≡ state_code ready
    → is_text (message_of (queue.slots i)) ≡ true
    → HasZero (message_of (queue.slots i)).bytes

-- A message that was taken out leaves the others.
TextsEnd-advanced : (queue : SharedQueueLayout) → TextsEnd queue → TextsEnd (advanced queue)
TextsEnd-advanced queue h i lt at_ready is = elim (Bool-cases (get_slot queue.read_index == i)) [
  | inl same ↦ absurd (
      let e : (advanced queue).slots i ≡ cleared = rw same refl in
      let z = sym (ap (λ (v : MessageSlot). v.state) e) ∙ at_ready in
      omega (arith, cleared_lem.0, z))
  | inr other ↦
      let e : (advanced queue).slots i ≡ queue.slots i = rw other refl in
      subst (λ (v : MessageSlot). HasZero (message_of v).bytes) (sym e)
        (h i lt (sym (ap (λ (v : MessageSlot). v.state) e) ∙ at_ready)
          (sym (ap (λ (v : MessageSlot). is_text (message_of v)) e) ∙ is))
]

-- The print of a message that was popped ends within the buffer.
print_ends :
    (s : Reading)
    → TextsEnd s.queue
    → (pop s.queue text s.buffer max_payload_size s.header).done ≡ true
    → has_zero (pop s.queue text s.buffer max_payload_size s.header).out_buffer ≡ true
print_ends s ends popped =
    let (at_ready, is, copied) = pop_done s.queue text s.buffer max_payload_size s.header popped in
    let slot = head_slot s.queue in
    ap has_zero copied
    ∙ has_zero-append (message_of slot).bytes (drop slot.header.length s.buffer)
        (ends (get_slot s.queue.read_index) (omega arith) at_ready is)

-- From any queue, in good shape or not, in which each ready TEXT message holds a zero byte, the loop
-- ends after at most one round more than the queue has ready slots, and no print reads beyond the
-- buffer.
pub read_all_total :
    (fuel : ℕ) (s : Reading)
    → TextsEnd s.queue
    → ready_slots queue_capacity s.queue.slots < fuel
    → (s' : Reading) × (read_all fuel s ≡ some s')
unfolding read_all
read_all_total zero s ends enough = absurd (omega arith)
read_all_total (suc fuel) s ends enough =
    elim (pop_cases s.queue text s.buffer max_payload_size s.header) [
      | inl same ↦ (s, rw (same, ltb_ge s.queue.read_index s.queue.read_index (omega arith)))
      | inr taken ↦
          let fewer : ready_slots queue_capacity
                (pop s.queue text s.buffer max_payload_size s.header).queue.slots
              < fuel =
            rw (taken.1) (
              omega (
                arith,
                ready_slots-cleared queue_capacity s.queue.slots (get_slot s.queue.read_index)
                    (omega arith) taken.0,
              )) in
          let ends' : TextsEnd (pop s.queue text s.buffer max_payload_size s.header).queue =
            subst TextsEnd (sym taken.1) (TextsEnd-advanced s.queue ends) in
          elim (Bool-cases (pop s.queue text s.buffer max_payload_size s.header).done) [
            | inl popped ↦ rw (popped, print_ends s ends popped) (read_all_total fuel _ ends' fewer)
            | inr other ↦ elim (Bool-cases (moved s)) [
              | inl passed ↦ rw (other, passed) (read_all_total fuel _ ends' fewer)
              | inr stays ↦ (
                record s {
                  queue = (pop s.queue text s.buffer max_payload_size s.header).queue;
                  buffer = (pop s.queue text s.buffer max_payload_size s.header).out_buffer;
                  header = (pop s.queue text s.buffer max_payload_size s.header).out_header;
                },
                rw (other, stays),
              )
            ]
          ]
    ]
