-- ===== src/Hw4/Producer.antt =====
-- hw4/producer_hw4.cpp: the program that makes the queue if it has to, and sends two messages.
pub mod Exits
use Prim.Native.String.{String}
use hse_multithreading_examp.Prelude.{
  ℕ, Bool, true, false, not, Option, none, some, List, [], ◌∷◌, if◌then◌else◌,
}
use hse_multithreading_examp.Hw4.Protocol.{text, number, SharedQueueLayout}
use hse_multithreading_examp.Hw4.Queue.{init_queue, is_queue_valid, push}
use hse_multithreading_examp.Hw4.Os.{Os}
use hse_multithreading_examp.Hw4.Shm.{no_region, create_or_open_region, close_region}
use hse_multithreading_examp.Hw4.Memory.{Args, parse_args, Memory}

-- `int number = 12345`, in memory.
abbrev pub number_bytes : List ℕ
number_bytes = 57 ∷ 48 ∷ 0 ∷ 0 ∷ []

-- "hello from producer" and the zero that ends it: `std::strlen(text) + 1` is 20.
abbrev pub text_bytes : List ℕ
text_bytes =
    104 ∷ 101 ∷ 108 ∷ 108 ∷ 111 ∷ 32 ∷ 102 ∷ 114 ∷ 111 ∷ 109 ∷ 32 ∷ 112 ∷ 114 ∷ 111 ∷ 100 ∷ 117 ∷ 99
    ∷ 101 ∷ 114 ∷ 0 ∷ []

-- The two pushes: whether both were accepted. The second is tried only after the first.
unfoldable pub send_both : SharedQueueLayout → Bool × SharedQueueLayout
send_both queue =
    let (pushed_number, queue1) = push queue number number_bytes 4 in
    let (pushed_text, queue2) = push queue1 text text_bytes 20 in
    if not pushed_number
    then (false, queue1)
    else if not pushed_text
    then (false, queue2)
    else (true, queue2)

module _ (os : Os) (memory : Memory os) (strtoull : String → ℕ) where
  open os use {World}
  open memory use {load, store}

  -- `main` once the queue is mapped: `queue` is what the memory holds.
  unfoldable pub send_and_close :
      SharedQueueLayout → Bool → (SharedQueueLayout → World) → (World → World) → ℕ × World
  send_and_close queue was_created stored closed =
      let ready = if was_created then init_queue queue else queue in
      let (sent, queue') = send_both ready in
      if not (is_queue_valid ready)
      then (1, closed (stored ready))
      else if not sent
      then (1, closed (stored queue'))
      else (0, closed (stored queue'))

  -- `main`: the exit status and the system afterwards. What it prints is left out.
  unfoldable pub main : List String → World → ℕ × World
  main argv w = elim (parse_args strtoull argv) [
    | none ↦ (1, w)
    | some args ↦
        (let o = create_or_open_region os args.shm_name args.queue_size no_region false w in
          if not o.done
          then (1, o.world)
          else send_and_close (load o.region.addr o.world) o.was_created
              (λ queue. store o.region.addr queue o.world) (λ w'. (close_region os o.region w').1))
  ]
