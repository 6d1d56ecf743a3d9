-- ===== src/Hw4/Producer/Exits.antt =====
-- The exits of `main` of hw4/producer_hw4.cpp.
use Prim.Native.String.{String}
use hse_multithreading_examp.Prelude.{
  ℕ, ◌≡◌, ◌<◌, refl, Bool, true, false, not, Option, none, some, List, Bool-cases, inl, inr,
  if◌then◌else◌,
}
use hse_multithreading_examp.Hw4.Protocol.{SharedQueueLayout}
use hse_multithreading_examp.Hw4.Queue.{init_queue, is_queue_valid}
use hse_multithreading_examp.Hw4.Os.{Os, View, Posix}
use hse_multithreading_examp.Hw4.Shm.{no_region, Outcome, create_or_open_region, close_region}
use hse_multithreading_examp.Hw4.Shm.Open.{CreateResult}
use hse_multithreading_examp.Hw4.Shm.Create.{create_or_open-CreateResult}
use hse_multithreading_examp.Hw4.Shm.Close.{close-Acquired, create-sized}
use hse_multithreading_examp.Hw4.Memory.{Args, parse_args, Memory, Plain, store-Acquired}
use hse_multithreading_examp.Hw4.Producer.{send_both, send_and_close, main}

module _ {os : Os} {view : View os.World} (posix : Posix os view) (memory : Memory os)
    (plain : Plain memory view) (strtoull : String → ℕ) where
  -- The process has the descriptors and the mappings that it had.
  abbrev pub Released : os.World → os.World → Type 0
  Released w w' = (view.descriptors w' ≡ view.descriptors w) × (view.mappings w' ≡ view.mappings w)

  send_and_close-Released :
      (queue : SharedQueueLayout) (was_created : Bool) (stored : SharedQueueLayout → os.World)
      (closed : os.World → os.World) (w : os.World)
      → ((q : SharedQueueLayout) → Released w (closed (stored q)))
      → Released w (send_and_close os memory strtoull queue was_created stored closed).1
  unfolding send_and_close
  send_and_close-Released queue was_created stored closed w all =
      let ready = if was_created then init_queue queue else queue in
      elim (Bool-cases (not (is_queue_valid ready))) [
        | inl bad ↦ rw bad (all ready)
        | inr good ↦ elim (Bool-cases (not (send_both ready).0)) [
          | inl unsent ↦ rw (good, unsent) (all (send_both ready).1)
          | inr sent ↦ rw (good, sent) (all (send_both ready).1)
        ]
      ]

  -- However the producer's `main` ends, it has given back every descriptor and every mapping.
  pub main-Released :
      (argv : List String) (w : os.World) → Released w (main os memory strtoull argv w).1
  unfolding main
  main-Released argv w = parsed (parse_args strtoull argv)
    where
      finish :
          (o : Outcome os) (args : Args)
          → CreateResult view args.shm_name args.queue_size no_region false w o.done o.region
              o.was_created o.world
          → (o.done ≡ true → 0 < args.queue_size)
          → let r : ℕ × os.World =
              if not o.done
              then (1, o.world)
              else send_and_close os memory strtoull
                  (memory.load o.region.addr o.world)
                  o.was_created
                  (λ queue. memory.store o.region.addr queue o.world)
                  (λ w'. (close_region os o.region w').1) in
            Released w r.1
      finish o args r sized = elim (Bool-cases o.done) [
        | inl opened ↦
            let r' : CreateResult view args.shm_name args.queue_size no_region false w true o.region
                o.was_created o.world =
              rw opened at r in
            rw opened (
              send_and_close-Released (memory.load o.region.addr o.world) o.was_created _ _ w
                (λ queue.
                  let (reset, fds, maps, objects) =
                    close-Acquired posix args.queue_size o.region w
                      (memory.store o.region.addr queue o.world)
                      (store-Acquired memory plain queue o.region.addr args.queue_size o.region w
                        o.world r'.0)
                      (sized opened) in
                  (fds, maps)))
        | inr failed ↦
            let r' : CreateResult view args.shm_name args.queue_size no_region false w false
                o.region o.was_created o.world =
              rw failed at r in
            rw failed (r'.2.descriptors_same, r'.2.mappings_same)
      ]

      parsed :
          (args : Option Args)
          → let r : ℕ × os.World = elim args [
            | none ↦ (1, w)
            | some args ↦
                (let o = create_or_open_region os args.shm_name args.queue_size no_region false w in
                  if not o.done
                  then (1, o.world)
                  else send_and_close os memory strtoull
                      (memory.load o.region.addr o.world)
                      o.was_created
                      (λ queue. memory.store o.region.addr queue o.world)
                      (λ w'. (close_region os o.region w').1))
          ] in
            Released w r.1
      parsed none = (refl, refl)
      parsed (some args) =
          finish (create_or_open_region os args.shm_name args.queue_size no_region false w) args
            (create_or_open-CreateResult posix args.shm_name args.queue_size no_region false w)
            (create-sized posix args.shm_name args.queue_size no_region false w)
