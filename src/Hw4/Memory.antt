-- ===== src/Hw4/Memory.antt =====
-- What the two programs of hw4 share besides the queue: their command line, and the memory behind
-- the address that `mmap` gave.
use Prim.Native.String.{String}
use hse_multithreading_examp.Hw4.Shm.Map.{Acquired}
use hse_multithreading_examp.Hw4.Shm.{SharedMemoryRegion}
use hse_multithreading_examp.Prelude.{
  ◌∙◌, ℕ, ◌≡◌, Option, none, some, List, [], ◌∷◌, ltb, if◌then◌else◌,
}
use hse_multithreading_examp.Hw4.Protocol.{SharedQueueLayout}
use hse_multithreading_examp.Hw4.Os.{Os, View}
use hse_multithreading_examp.Hw4.Shm.{get_queue_memory_size}

-- The name of the object and the size of the region.
pub record Args : Type 0 where
  pub shm_name : String
  pub queue_size : ℕ

-- The command line of either `main`, with the library's `strtoull`; `none` is the exit with
-- "Queue size is too small". Arguments behind the second are not looked at.
unfoldable pub parse_args : (String → ℕ) → List String → Option Args
parse_args strtoull [] =
    some (record { shm_name = "/hw4_queue"; queue_size = get_queue_memory_size })
parse_args strtoull (name ∷ []) =
    some (record { shm_name = name; queue_size = get_queue_memory_size })
parse_args strtoull (name ∷ size ∷ rest) =
    if ltb (strtoull size) get_queue_memory_size
    then none
    else some (record { shm_name = name; queue_size = strtoull size })

-- The queue that lies at an address of the process, and a change of it.
pub record Memory (os : Os) : Type 0 where
  pub load : ℕ → os.World → SharedQueueLayout
  pub store : ℕ → SharedQueueLayout → os.World → os.World

-- Writing to mapped memory changes no descriptor and no mapping.
pub record Plain {os : Os} (memory : Memory os) (view : View os.World) : Type 0 where
  pub store_descriptors :
      (addr : ℕ) (queue : SharedQueueLayout) (w : os.World)
      → view.descriptors (memory.store addr queue w) ≡ view.descriptors w
  pub store_mappings :
      (addr : ℕ) (queue : SharedQueueLayout) (w : os.World)
      → view.mappings (memory.store addr queue w) ≡ view.mappings w

-- A region stays acquired while its queue is written.
pub store-Acquired :
    {os : Os} {view : View os.World} (memory : Memory os)
    → Plain memory view
    → (queue : SharedQueueLayout) (addr size : ℕ) (region : SharedMemoryRegion) (w w' : os.World)
    → Acquired view size region w w'
    → Acquired view size region w (memory.store addr queue w')
store-Acquired memory plain queue addr size region w w' a = record {
  fd = a.fd;
  has_fd = a.has_fd;
  has_size = a.has_size;
  not_null = a.not_null;
  descriptors_more = plain.store_descriptors addr queue w' ∙ a.descriptors_more;
  mappings_more = plain.store_mappings addr queue w' ∙ a.mappings_more;
}
