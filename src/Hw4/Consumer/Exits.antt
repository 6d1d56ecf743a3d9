-- ===== src/Hw4/Consumer/Exits.antt =====
-- The exits of `main` of hw4/consumer_hw4.cpp.
use Prim.Native.String.{String}
use hse_multithreading_examp.Prelude.{
  ℕ, ◌+◌, ◌≡◌, ◌<◌, refl, ◌∙◌, Bool, true, false, not, Option, none, some, List, arith, Bool-cases,
  inl, inr, if◌then◌else◌,
}
use hse_multithreading_examp.Hw4.Protocol.{queue_capacity, SharedQueueLayout}
use hse_multithreading_examp.Hw4.Queue.{is_queue_valid}
use hse_multithreading_examp.Hw4.Os.{Os, View, Posix}
use hse_multithreading_examp.Hw4.Shm.{
  no_region, SharedMemoryRegion, open_region, unlink_shared_memory,
}
use hse_multithreading_examp.Hw4.Shm.Map.{Acquired}
use hse_multithreading_examp.Hw4.Shm.Open.{OpenResult, open_region-OpenResult}
use hse_multithreading_examp.Hw4.Shm.Close.{close-Acquired, open-sized}
use hse_multithreading_examp.Hw4.Memory.{Args, parse_args, Memory, Plain, store-Acquired}
use hse_multithreading_examp.Hw4.Consumer.{start_reading, Ended, read_and_close, main}
use hse_multithreading_examp.Hw4.Consumer.Total.{read_all_total, ready_slots-le, TextsEnd}

-- `shm_unlink` touches no descriptor and no mapping, whether it succeeds or not.
pub record UnlinkPlain (os : Os) (view : View os.World) : Type 0 where
  pub unlink_descriptors :
      (name : String) (w : os.World)
      → view.descriptors (os.shm_unlink name w).1 ≡ view.descriptors w
  pub unlink_mappings :
      (name : String) (w : os.World) → view.mappings (os.shm_unlink name w).1 ≡ view.mappings w

module _ {os : Os} {view : View os.World} (posix : Posix os view) (unlink : UnlinkPlain os view)
    (memory : Memory os) (plain : Plain memory view) (strtoull : String → ℕ) where
  abbrev pub Released : os.World → os.World → Type 0
  Released w w' = (view.descriptors w' ≡ view.descriptors w) × (view.mappings w' ≡ view.mappings w)

  -- It ends, with everything given back.
  abbrev pub EndsReleased : os.World → Option (Ended os) → Type 0
  EndsReleased w r = (e : Ended os) × (r ≡ some e) × Released w e.world

  read_and_close-Released :
      (shm_name : String) (size : ℕ) (region : SharedMemoryRegion) (w w1 : os.World)
      → Acquired view size region w w1
      → 0 < size
      → TextsEnd (memory.load region.addr w1)
      → EndsReleased w (read_and_close os memory strtoull (queue_capacity + 1) shm_name region w1)
  unfolding read_and_close unlink_shared_memory
  read_and_close-Released shm_name size region w w1 a sized ends =
      elim (Bool-cases (not (is_queue_valid queue))) [
        | inl bad ↦
            let (reset, fds, maps, objects) = close-Acquired posix size region w w1 a sized in
            rw bad (_, refl, (fds, maps))
        | inr good ↦
            let (s, runs) =
              read_all_total (queue_capacity + 1) (start_reading queue) ends
                (omega (arith, ready_slots-le queue_capacity queue.slots)) in
            let (reset, fds, maps, objects) =
              close-Acquired posix size region w (memory.store region.addr s.queue w1)
                (store-Acquired memory plain s.queue region.addr size region w w1 a) sized in
            rw (good, runs)
              (
                _,
                refl,
                (
                  unlink.unlink_descriptors shm_name _ ∙ fds,
                  unlink.unlink_mappings shm_name _ ∙ maps,
                ),
              )
      ]
    where
      queue : SharedQueueLayout
      queue = memory.load region.addr w1

  -- The queue that `main` finds once it has opened the shared memory.
  abbrev pub found : Args → os.World → SharedQueueLayout
  found args w =
      let (opened, region, w1) = open_region os args.shm_name args.queue_size no_region w in
      memory.load region.addr w1

  -- If each ready TEXT message that the shared memory holds has a zero byte, the consumer's `main` ends,
  -- and on every exit it has given back every descriptor and every mapping; 17 rounds of the loop are
  -- enough, in whatever shape the queue is.
  pub consumer-Released :
      (argv : List String) (w : os.World)
      → ((args : Args) → parse_args strtoull argv ≡ some args → TextsEnd (found args w))
      → EndsReleased w (main os memory strtoull (queue_capacity + 1) argv w)
  unfolding main
  consumer-Released argv w ends = parsed (parse_args strtoull argv) ends
    where
      finish :
          (args : Args) (opened : Bool) (region : SharedMemoryRegion) (w1 : os.World)
          → OpenResult view args.queue_size no_region w opened region w1
          → (opened ≡ true → 0 < args.queue_size)
          → TextsEnd (memory.load region.addr w1)
          → let r : Option (Ended os) =
              if not opened
              then some (record { status = 1; reading = none; world = w1 })
              else read_and_close os memory strtoull (queue_capacity + 1) args.shm_name region w1 in
            EndsReleased w r
      finish args true region w1 r sized texts =
          read_and_close-Released args.shm_name args.queue_size region w w1 r.0 (sized refl) texts
      finish args false region w1 r sized texts =
          (_, refl, (r.1.descriptors_same, r.1.mappings_same))

      parsed :
          (args : Option Args)
          → ((a : Args) → args ≡ some a → TextsEnd (found a w))
          → let r : Option (Ended os) = elim args [
            | none ↦ some (record { status = 1; reading = none; world = w })
            | some args ↦
                (let (opened, region, w1) =
                    open_region os args.shm_name args.queue_size no_region w in
                  if not opened
                  then some (record { status = 1; reading = none; world = w1 })
                  else read_and_close os memory strtoull
                      (queue_capacity + 1)
                      args.shm_name
                      region
                      w1)
          ] in
            EndsReleased w r
      parsed none texts = (_, refl, (refl, refl))
      parsed (some args) texts =
          finish args _ _ _ (open_region-OpenResult posix args.shm_name args.queue_size no_region w)
            (open-sized posix args.shm_name args.queue_size no_region w) (texts args refl)
