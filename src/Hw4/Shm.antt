-- ===== src/Hw4/Shm.antt =====
-- hw4/shm_utils.h and hw4/shm_utils.cpp: making, opening and closing a region of shared memory, over the system calls
-- of `Os`.
pub mod Map
pub mod Open
pub mod Create
pub mod Close
use Prim.Native.String.{String}
use hse_multithreading_examp.Prelude.{
  ℕ, ◌+◌, ◌*◌, ◌≡◌, Bool, true, false, not, Option, none, some, ltb, ◌==◌, if◌then◌else◌, ◌&&◌,
}
use hse_multithreading_examp.Hw4.Protocol.{queue_capacity, max_payload_size}
use hse_multithreading_examp.Hw4.Os.{Os, OpenFlags, create, exclusive, existing}

-- `fd` is `none` for -1; `addr` is 0 for a null pointer.
pub record SharedMemoryRegion : Type 0 where
  pub fd : Option ℕ
  pub addr : ℕ
  pub size : ℕ

-- A region as it is declared, and as `close_shared_memory` leaves it.
abbrev pub no_region : SharedMemoryRegion
no_region = record { fd = none; addr = 0; size = 0 }

-- `sizeof(SharedQueueLayout)`: four 32-bit fields, two 64-bit indices, and slots of a state, a
-- header of two words and the payload. No padding is needed.
unfoldable pub get_queue_memory_size : ℕ
get_queue_memory_size = 4 * 4 + 2 * 8 + queue_capacity * (4 + 2 * 4 + max_payload_size)

module _ (os : Os) where
  open os use {World, shm_open, errno_eexist, ftruncate, mmap, munmap, close, shm_unlink}

  -- From `mmap` on: the result, what `*region` is then, and the system.
  unfoldable pub map_fd : ℕ → ℕ → SharedMemoryRegion → World → Bool × SharedMemoryRegion × World
  map_fd fd size region w =
      let (mapped, w1) = mmap size fd w in
      elim mapped [
        | none ↦ (false, region, close fd w1)
        | some a ↦ (true, record { fd = some fd; addr = a; size = size }, w1)
      ]

  -- `create_shared_memory`, `open_shared_memory` and `create_or_open_shared_memory` behind their
  -- tests for null pointers.
  unfoldable pub create_region :
      String → ℕ → SharedMemoryRegion → World → Bool × SharedMemoryRegion × World
  create_region name size region w =
      if size == 0
      then (false, region, w)
      else (let (opened, w1) = shm_open name create w in
          elim opened [
            | none ↦ (false, region, w1)
            | some fd ↦
                (let (sized, w2) = ftruncate fd size w1 in
                  if sized then map_fd fd size region w2 else (false, region, close fd w2))
          ])

  unfoldable pub open_region :
      String → ℕ → SharedMemoryRegion → World → Bool × SharedMemoryRegion × World
  open_region name size region w =
      if size == 0
      then (false, region, w)
      else (let (opened, w1) = shm_open name existing w in
          elim opened [ none ↦ (false, region, w1) | some fd ↦ map_fd fd size region w1 ])

  -- `create_or_open_shared_memory` has one more result, `*was_created`.
  pub record Outcome : Type 0 where
    pub done : Bool
    pub region : SharedMemoryRegion
    pub was_created : Bool
    pub world : World

  abbrev pub failed : SharedMemoryRegion → Bool → World → Outcome
  failed region was_created w = record {
    done = false;
    region = region;
    was_created = was_created;
    world = w;
  }

  -- The last part of `create_or_open_shared_memory`, with `created_now`.
  unfoldable pub map_or_undo : String → Bool → ℕ → ℕ → SharedMemoryRegion → Bool → World → Outcome
  map_or_undo name created_now fd size region was_created w =
      let (mapped, region', w1) = map_fd fd size region w in
      if mapped
      then record { done = true; region = region'; was_created = created_now; world = w1 }
      else failed region' was_created (if created_now then (shm_unlink name w1).1 else w1)

  unfoldable pub create_or_open_region : String → ℕ → SharedMemoryRegion → Bool → World → Outcome
  create_or_open_region name size region was_created w =
      if size == 0
      then failed region was_created w
      else (let (opened, w1) = shm_open name exclusive w in
          elim opened [
            | some fd ↦
                (let (sized, w2) = ftruncate fd size w1 in
                  if sized
                  then map_or_undo name true fd size region was_created w2
                  else failed region was_created ((shm_unlink name (close fd w2)).1))
            | none ↦
                if not (errno_eexist w1)
                then failed region was_created w1
                else (let (reopened, w2) = shm_open name existing w1 in
                    elim reopened [
                      | none ↦ failed region was_created w2
                      | some fd ↦ map_or_undo name false fd size region was_created w2
                    ])
          ])

  unfoldable pub close_region : SharedMemoryRegion → World → SharedMemoryRegion × World
  close_region region w =
      let w1 : World =
        if not (region.addr == 0) && ltb 0 region.size
        then munmap region.addr region.size w
        else w in
      let w2 : World = elim region.fd [ none ↦ w1 | some fd ↦ close fd w1 ] in (no_region, w2)

  -- The functions as they are called, with `none` for a null pointer.
  unfoldable pub create_shared_memory :
      Option String
      → ℕ
      → Option SharedMemoryRegion
      → World
      → Bool × Option SharedMemoryRegion × World
  create_shared_memory (some name) size (some region) w =
      let (done, region', w') = create_region name size region w in (done, some region', w')
  create_shared_memory name size region w = (false, region, w)

  unfoldable pub open_shared_memory :
      Option String
      → ℕ
      → Option SharedMemoryRegion
      → World
      → Bool × Option SharedMemoryRegion × World
  open_shared_memory (some name) size (some region) w =
      let (done, region', w') = open_region name size region w in (done, some region', w')
  open_shared_memory name size region w = (false, region, w)

  unfoldable pub create_or_open_shared_memory :
      Option String
      → ℕ
      → Option SharedMemoryRegion
      → Option Bool
      → World
      → Bool × Option SharedMemoryRegion × Option Bool × World
  create_or_open_shared_memory (some name) size (some region) (some was_created) w =
      let o = create_or_open_region name size region was_created w in
      (o.done, some o.region, some o.was_created, o.world)
  create_or_open_shared_memory name size region was_created w = (false, region, was_created, w)

  unfoldable pub close_shared_memory :
      Option SharedMemoryRegion → World → Option SharedMemoryRegion × World
  close_shared_memory none w = (none, w)
  close_shared_memory (some region) w =
      let (region', w') = close_region region w in (some region', w')

  unfoldable pub unlink_shared_memory : Option String → World → Bool × World
  unlink_shared_memory none w = (false, w)
  unlink_shared_memory (some name) w = shm_unlink name w
