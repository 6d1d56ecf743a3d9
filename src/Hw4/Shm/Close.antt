-- ===== src/Hw4/Shm/Close.antt =====
-- `close_shared_memory` of hw4/shm_utils.cpp, after a region was made.
use Prim.Native.String.{String}
use hse_multithreading_examp.Prelude.{
  ℕ, zero, suc, ◌≡◌, ◌<◌, refl, ◌∙◌, ◌≢◌, Bool, true, false, some, ap, arith, eqb_refl, eqb_ne,
  lt→ltb,
}
use hse_multithreading_examp.Hw4.Os.{Os, View, Posix, Same, unmapped, without}
use hse_multithreading_examp.Hw4.Shm.{
  SharedMemoryRegion, no_region, open_region, create_or_open_region, close_region,
}
use hse_multithreading_examp.Hw4.Shm.Map.{Acquired}
use hse_multithreading_examp.Hw4.Shm.Open.{OpenResult, CreateResult, open_region-OpenResult}
use hse_multithreading_examp.Hw4.Shm.Create.{create_or_open-CreateResult}

module _ {os : Os} {view : View os.World} (posix : Posix os view) where
  -- A region that is mapped and has a descriptor loses both.
  close-mapped :
      (region : SharedMemoryRegion) (fd : ℕ) (w : os.World)
      → region.fd ≡ some fd
      → region.addr ≢ 0
      → 0 < region.size
      → close_region os region w ≡ (no_region, os.close fd (os.munmap region.addr region.size w))
  unfolding close_region
  close-mapped region fd w has_fd not_null sized =
      rw (has_fd, eqb_ne _ _ not_null, lt→ltb _ _ sized)

  -- Closing a region that was made gives back its mapping and its descriptor.
  pub close-Acquired :
      (size : ℕ) (region : SharedMemoryRegion) (w w' : os.World)
      → Acquired view size region w w'
      → 0 < size
      → let (region', w'') = close_region os region w' in
        (region' ≡ no_region)
        × (view.descriptors w'' ≡ view.descriptors w)
        × (view.mappings w'' ≡ view.mappings w)
        × ((name : String) → view.exists? w'' name ≡ view.exists? w' name)
  close-Acquired size region w w' a sized =
      rw (close-mapped region a.fd w' a.has_fd a.not_null (rw a.has_size sized)) (
        refl,
        posix.close_descriptors a.fd _
            ∙ (ap (without a.fd)
                  (posix.munmap_descriptors region.addr region.size w' ∙ a.descriptors_more)
                ∙ rw (eqb_refl a.fd)),
        posix.close_mappings a.fd _
            ∙ (posix.munmap_mappings region.addr region.size w'
                ∙ (ap (unmapped region.addr region.size) a.mappings_more
                    ∙ rw (a.has_size, eqb_refl region.addr, eqb_refl size))),
        λ name.
            posix.close_exists a.fd _ name ∙ posix.munmap_exists region.addr region.size w' name,
      )

  pub open-sized :
      (name : String) (size : ℕ) (region : SharedMemoryRegion) (w : os.World)
      → (open_region os name size region w).0 ≡ true
      → 0 < size
  unfolding open_region
  open-sized name zero region w done = cc
  open-sized name (suc size) region w done = omega arith

  pub create-sized :
      (name : String) (size : ℕ) (region : SharedMemoryRegion) (was_created : Bool) (w : os.World)
      → (create_or_open_region os name size region was_created w).done ≡ true
      → 0 < size
  unfolding create_or_open_region
  create-sized name zero region was_created w done = cc
  create-sized name (suc size) region was_created w done = omega arith

  -- `close_shared_memory` undoes an `open_shared_memory` that succeeded: the region is as it was
  -- declared, and the descriptors, the mappings and the named objects are those from before.
  pub close-open :
      (name : String) (size : ℕ) (region : SharedMemoryRegion) (w : os.World)
      → (open_region os name size region w).0 ≡ true
      → let (done, region', w') = open_region os name size region w in
        let (region'', w'') = close_region os region' w' in (region'' ≡ no_region) × Same view w w''
  close-open name size region w done =
      go _ _ _ (open_region-OpenResult posix name size region w) done
    where
      go :
          (done : Bool) (region' : SharedMemoryRegion) (w' : os.World)
          → OpenResult view size region w done region' w'
          → done ≡ true
          → let (region'', w'') = close_region os region' w' in
            (region'' ≡ no_region) × Same view w w''
      go false region' w' r e = cc
      go true region' w' r e =
          let (reset, fds, maps, objects) =
            close-Acquired size region' w w' r.0 (open-sized name size region w done) in
          (
            reset,
            record {
              descriptors_same = fds;
              mappings_same = maps;
              exists_same = λ other. objects other ∙ r.1 other;
            },
          )

  -- After `create_or_open_shared_memory` succeeded, `close_shared_memory` gives the descriptor and
  -- the mapping back and resets the region; the object still exists.
  pub close-create_or_open :
      (name : String) (size : ℕ) (region : SharedMemoryRegion) (was_created : Bool) (w : os.World)
      → (create_or_open_region os name size region was_created w).done ≡ true
      → let o = create_or_open_region os name size region was_created w in
        let (region'', w'') = close_region os o.region o.world in
        (region'' ≡ no_region)
        × (view.descriptors w'' ≡ view.descriptors w)
        × (view.mappings w'' ≡ view.mappings w)
        × (view.exists? w'' name ≡ true)
  close-create_or_open name size region was_created w done =
      go _ _ _ _ (create_or_open-CreateResult posix name size region was_created w) done
    where
      go :
          (done : Bool) (region' : SharedMemoryRegion) (created : Bool) (w' : os.World)
          → CreateResult view name size region was_created w done region' created w'
          → done ≡ true
          → let (region'', w'') = close_region os region' w' in
            (region'' ≡ no_region)
            × (view.descriptors w'' ≡ view.descriptors w)
            × (view.mappings w'' ≡ view.mappings w)
            × (view.exists? w'' name ≡ true)
      go false region' created w' r e = cc
      go true region' created w' r e =
          let (reset, fds, maps, objects) =
            close-Acquired size region' w w' r.0
              (create-sized name size region was_created w done) in
          (reset, fds, maps, objects name ∙ r.2)
