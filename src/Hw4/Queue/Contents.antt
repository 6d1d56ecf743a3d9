-- ===== src/Hw4/Queue/Contents.antt =====
-- What the queue of hw4/ipc_queue.cpp holds, as a list of messages, oldest first, and when its
-- memory is in the shape that its operations keep.
use hse_multithreading_examp.Hw4.Mailbox.{Message}
use hse_multithreading_examp.Prelude.{
  length-replicate, ℕ, zero, suc, ◌+◌, ◌%◌, ◌≤◌, ◌<◌, ◌≡◌, refl, ◌∙◌, ap, List, [], ◌∷◌, ◌++◌,
  arith, length, take,
}
use mathlib.Core.Path.{ap₂}
use hse_multithreading_examp.Hw4.Queue.{cleared}
use native.Mathlib.Nat.{add-zero, add_assoc, add_comm}
use hse_multithreading_examp.Hw4.Protocol.{
  queue_capacity, max_payload_size, size_mod, state_code, empty, ready, MessageSlot,
  SharedQueueLayout,
}

abbrev pub message_of : MessageSlot → Message
message_of slot = record { type = slot.header.type; bytes = take slot.header.length slot.payload }

-- The messages of the `n` slots from index `first` on, going round at the capacity.
unfoldable pub window : (ℕ → MessageSlot) → ℕ → ℕ → List Message
window slots first zero = []
window slots first (suc n) =
    message_of (slots (first % queue_capacity)) ∷ window slots (first + 1) n

pub record IsReady (slot : MessageSlot) : Type 0 where
  pub state_ready : slot.state ≡ state_code ready
  pub fits : slot.header.length ≤ max_payload_size

-- The queue holds `n` messages, in the `n` slots from `read_index` on; the other slots are empty.
pub record HasMessages (queue : SharedQueueLayout) (n : ℕ) : Type 0 where
  pub few : n ≤ queue_capacity
  pub read_in : queue.read_index < size_mod
  pub full_slots : (k : ℕ) → k < n → IsReady (queue.slots ((queue.read_index + k) % queue_capacity))
  pub empty_slots :
      (k : ℕ)
      → n ≤ k
      → k < queue_capacity
      → (queue.slots ((queue.read_index + k) % queue_capacity)).state ≡ state_code empty
  pub payloads : (i : ℕ) → i < queue_capacity → length (queue.slots i).payload ≡ max_payload_size

-- Moreover the next push goes to the slot behind them.
pub record IsFifo (queue : SharedQueueLayout) (n : ℕ) : Type 0 where
  pub shape : HasMessages queue n
  pub open shape use *
  pub write_at : queue.write_index ≡ (queue.read_index + n) % size_mod

abbrev pub contents : SharedQueueLayout → ℕ → List Message
contents queue n = window queue.slots queue.read_index n

pub length-window : (slots : ℕ → MessageSlot) (first n : ℕ) → length (window slots first n) ≡ n
unfolding window
length-window slots first zero = refl
length-window slots first (suc n) = ap suc (length-window slots (first + 1) n)

pub window-zero : (slots : ℕ → MessageSlot) (first : ℕ) → window slots first 0 ≡ []
unfolding window
window-zero slots first = refl

-- A window depends on its first index only through the slot that it falls on.
pub window-mod :
    (slots : ℕ → MessageSlot) (first other n : ℕ)
    → first % queue_capacity ≡ other % queue_capacity
    → window slots first n ≡ window slots other n
unfolding window
window-mod slots first other zero e = refl
window-mod slots first other (suc n) e =
    rw (e, window-mod slots (first + 1) (other + 1) n (omega arith))

-- Two arrays that agree on the slots of a window have the same messages there.
pub window-ext :
    (slots other : ℕ → MessageSlot) (first n : ℕ)
    → ((k : ℕ)
        → k < n
        → slots ((first + k) % queue_capacity) ≡ other ((first + k) % queue_capacity))
    → window slots first n ≡ window other first n
unfolding window
window-ext slots other first zero h = refl
window-ext slots other first (suc n) h =
    ap₂ ◌∷◌ (ap message_of (rw (add-zero first) at (h 0 (omega arith)))) (
      window-ext slots other (first + 1) n
        (λ k lt. rw (add_assoc first 1 k, add_comm 1 k) (h (k + 1) (omega arith))))

-- The last message of a window.
pub window-suc :
    (slots : ℕ → MessageSlot) (first n : ℕ)
    → window slots first (suc n)
      ≡ window slots first n ++ (message_of (slots ((first + n) % queue_capacity)) ∷ [])
unfolding window
window-suc slots first zero = rw (add-zero first)
window-suc slots first (suc n) =
    ap (λ t. message_of (slots (first % queue_capacity)) ∷ t)
      (window-suc slots (first + 1) n
        ∙ (let e : first + 1 + n ≡ first + suc n = omega arith in rw e))

pub cleared_lem : (cleared.state ≡ state_code empty) × (length cleared.payload ≡ max_payload_size)
unfolding cleared
cleared_lem = (refl, length-replicate {A = ℕ} max_payload_size 0)
