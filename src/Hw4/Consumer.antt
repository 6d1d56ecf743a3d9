-- ===== src/Hw4/Consumer.antt =====
-- hw4/consumer_hw4.cpp: the program that reads the queue until it is empty.
pub mod Loop
pub mod Total
pub mod Exits
use hse_multithreading_examp.Prelude.{
  replicate, ℕ, zero, suc, ◌+◌, ◌≡◌, Bool, true, false, not, Option, none, some, List, [], ◌∷◌,
  ◌++◌, ltb, ◌==◌, if◌then◌else◌,
}
use Prim.Native.String.{String}
use mathlib.Core.Option
use hse_multithreading_examp.Hw4.Os.{Os}
use hse_multithreading_examp.Hw4.Shm.{
  SharedMemoryRegion, no_region, open_region, close_region, unlink_shared_memory,
}
use hse_multithreading_examp.Hw4.Memory.{Args, parse_args, Memory}
use hse_multithreading_examp.Hw4.Queue.{is_queue_valid, pop}
use hse_multithreading_examp.Hw4.Protocol.{max_payload_size, text, MessageHeader, SharedQueueLayout}

-- What `std::cout << buffer` prints of a buffer: the bytes before the first zero.
abbrev pub c_string : List ℕ → List ℕ
c_string [] = []
c_string (zero ∷ bytes) = []
c_string (suc b ∷ bytes) = suc b ∷ c_string bytes

-- Whether the print ends within the buffer.
abbrev pub has_zero : List ℕ → Bool
has_zero [] = false
has_zero (zero ∷ bytes) = true
has_zero (suc b ∷ bytes) = has_zero bytes

-- A line of the loop's output: "Received TEXT message: …" or "Skipped message with another type".
pub data Line : Type 0 where
  received : List ℕ → Line
  skipped : Line

-- The local variables of `main` that the loop changes, the queue, and the lines printed so far.
pub record Reading : Type 0 where
  pub queue : SharedQueueLayout
  pub buffer : List ℕ
  pub header : MessageHeader
  pub received_text_count : ℕ
  pub skipped_count : ℕ
  pub lines : List Line

-- The `while (true)` loop, on fuel; `none` when the fuel runs out, or when a print reads beyond
-- `buffer`, from where on nothing is known of the program.
unfoldable pub read_all : ℕ → Reading → Option Reading
read_all zero s = none
read_all (suc fuel) s =
    let r = pop s.queue text s.buffer max_payload_size s.header in
    let before = s.queue.read_index in
    let after = r.queue.read_index in
    let popped : Option Reading = read_all fuel (record s {
      queue = r.queue;
      buffer = r.out_buffer;
      header = r.out_header;
      received_text_count = s.received_text_count + 1;
      lines = s.lines ++ (received (c_string r.out_buffer) ∷ []);
    }) in
    let passed : Option Reading = read_all fuel (record s {
      queue = r.queue;
      buffer = r.out_buffer;
      header = r.out_header;
      skipped_count = s.skipped_count + 1;
      lines = s.lines ++ (skipped ∷ []);
    }) in
    let stopped : Reading = record s {
      queue = r.queue;
      buffer = r.out_buffer;
      header = r.out_header;
    } in
    if r.done
    then (if has_zero r.out_buffer then popped else none)
    else if ltb before after
    then passed
    else some stopped

-- What the loop starts from.
abbrev pub start_reading : SharedQueueLayout → Reading
start_reading queue = record {
  queue = queue;
  buffer = replicate max_payload_size 0;
  header = record { type = 0; length = 0 };
  received_text_count = 0;
  skipped_count = 0;
  lines = [];
}

-- How `main` ends: its status, what the loop did if it ran, and the system.
pub record Ended (os : Os) : Type 0 where
  pub status : ℕ
  pub reading : Option Reading
  pub world : os.World

module _ (os : Os) (memory : Memory os) (strtoull : String → ℕ) where
  open os use {World}
  open memory use {load, store}

  -- `main` behind `open_shared_memory`, with the loop on fuel.
  unfoldable pub read_and_close : ℕ → String → SharedMemoryRegion → World → Option (Ended os)
  read_and_close fuel shm_name region w =
      let queue = load region.addr w in
      let finish : Reading → Ended os = λ s. record {
        status = 0;
        reading = some s;
        world =
            (unlink_shared_memory os (some shm_name)
              (close_region os region (store region.addr s.queue w)).1).1;
      } in
      if not (is_queue_valid queue)
      then some (record { status = 1; reading = none; world = (close_region os region w).1 })
      else Option.map finish (read_all fuel (start_reading queue))

  -- `main`; `none` only where the loop is that.
  unfoldable pub main : ℕ → List String → World → Option (Ended os)
  main fuel argv w = elim (parse_args strtoull argv) [
    | none ↦ some (record { status = 1; reading = none; world = w })
    | some args ↦
        (let (opened, region, w1) = open_region os args.shm_name args.queue_size no_region w in
          if not opened
          then some (record { status = 1; reading = none; world = w1 })
          else read_and_close fuel args.shm_name region w1)
  ]
