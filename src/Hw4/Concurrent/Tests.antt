-- ===== src/Hw4/Concurrent/Tests.antt =====
-- The theorems on interleaved pushes and pops at concrete runs.
use hse_multithreading_examp.Hw4.Concurrent.{
  header_of, popped, Pc, Move, start, push_call, fetch, claim, write_header, write_payload, publish,
  pop_call, is_ready, load_header, copy_out, clear, free, advance, payload_of,
}
use hse_multithreading_examp.Prelude.{
  ℕ, ◌+◌, ◌≤◌, ◌<◌, ◌≡◌, ◌≢◌, refl, arith, List, [], ◌∷◌, some, update,
}
use hse_multithreading_examp.Threads.{System, Reach, here, later, pick, along}
use hse_multithreading_examp.Hw4.Protocol.{MessageType, text, SharedQueueLayout}
use hse_multithreading_examp.Hw4.Queue.{
  init_queue, init_slots, cleared, claim_slot, fetch_write_index, publish_slot,
}
use hse_multithreading_examp.Hw4.Concurrent.Slots.{uses, IsSent}
use hse_multithreading_examp.Hw4.Concurrent.Safety.{no_torn_message, slots_exclusive}
use hse_multithreading_examp.Hw4.Concurrent.WaitFree.{steps_left, calls_end}
use hse_multithreading_examp.Hw4.Concurrent.Balance.{publishes, consumes, ready_slots, nothing_lost}

-- One call, of two bytes.
abbrev Calls : MessageType → List ℕ → ℕ → Type 0
Calls t b n = (t ≡ text) × (b ≡ 5 ∷ 6 ∷ []) × (n ≡ 2)

abbrev raw : SharedQueueLayout
raw = record {
  meta = record { magic = 0; version = 0; capacity = 0; max_payload_size = 0 };
  write_index = 0;
  read_index = 0;
  slots = λ _. record { state = 1; header = record { type = 9; length = 9 }; payload = [] };
}

-- Process 1 has pushed, and the consumer is at `pop_copy`.
abbrev fetched : SharedQueueLayout
fetched = (fetch_write_index (init_queue raw)).1

abbrev claimed : SharedQueueLayout
claimed = (claim_slot fetched 0).1

abbrev claimed_pc : ℕ → Pc
claimed_pc =
    update
      (update (update (start raw).pc 1 (Pc.push_fetch text (5 ∷ 6 ∷ []) 2)) 1
        (Pc.push_claim text (5 ∷ 6 ∷ []) 2 0))
      1 (Pc.push_header text (5 ∷ 6 ∷ []) 2 0)

claimed_reached :
    Reach (Move Calls text 4096) (start raw) (record { mem = claimed; pc = claimed_pc })
unfolding init_queue init_slots cleared fetch_write_index claim_slot
claimed_reached =
    later
      (later (later here (pick 1 (push_call (refl, refl, refl) (omega arith) (omega arith))))
        (pick 1 fetch))
      (pick 1 (claim refl))

slots_exclusive_example : uses (claimed_pc 1) ≢ uses (claimed_pc 0)
slots_exclusive_example =
    slots_exclusive Calls text 4096 raw (record { mem = claimed; pc = claimed_pc }) 1 0
      claimed_reached (omega arith) (omega arith)

popped_reached :
    (t : System SharedQueueLayout Pc) × Reach (Move Calls text 4096) (start raw) t
    × (t.pc 0 ≡ popped (header_of text 2) (some (5 ∷ 6 ∷ [])))
unfolding init_queue init_slots cleared fetch_write_index claim_slot publish_slot payload_of
popped_reached = (
  _,
  later
      (later
        (later
          (later
            (later
              (later
                (later
                  (later
                    (later
                      (later (later claimed_reached (pick 1 write_header)) (pick 1 write_payload))
                      (pick 1 publish))
                    (pick 0 pop_call))
                  (pick 0 (is_ready refl)))
                (pick 0 (load_header (omega arith) (omega arith))))
              (pick 0 (copy_out refl)))
            (pick 0 clear))
          (pick 0 free))
        (pick 0 advance))
      (pick 2 (push_call (refl, refl, refl) (omega arith) (omega arith))),
  refl,
)

no_torn_message_example : IsSent Calls (header_of text 2) (5 ∷ 6 ∷ [])
no_torn_message_example =
    no_torn_message Calls text 4096 raw popped_reached.0 0 (header_of text 2) (5 ∷ 6 ∷ [])
      popped_reached.1 popped_reached.2

nothing_lost_example :
    along (Move Calls text 4096) publishes popped_reached.1
    ≡ along (Move Calls text 4096) consumes popped_reached.1 + ready_slots popped_reached.0.mem
nothing_lost_example = nothing_lost Calls text 4096 raw popped_reached.1

calls_end_example :
    ((m : SharedQueueLayout) × (p : Pc) × Move Calls text 4096 claimed (Pc.pop_state 0) m p)
    × (steps_left (Pc.pop_state 0) ≤ 7)
    × ((m : SharedQueueLayout) (p : Pc)
        → Move Calls text 4096 claimed (Pc.pop_state 0) m p
        → steps_left p < steps_left (Pc.pop_state 0))
calls_end_example = calls_end Calls text 4096 claimed (Pc.pop_state 0) (omega arith)
