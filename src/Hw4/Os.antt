-- ===== src/Hw4/Os.antt =====
-- The system calls that hw4/shm_utils.cpp makes: an interface, since the system is no part of the
-- repository, and what POSIX documents of it as far as the code relies on it.
use Prim.Native.String.{String}
use hse_multithreading_examp.Prelude.{
  ℕ, ◌≡◌, ◌≢◌, Bool, true, false, Option, none, some, List, [], ◌∷◌, ◌==◌, if◌then◌else◌, ◌&&◌,
}

-- The flags of `shm_open`: O_CREAT | O_RDWR, O_CREAT | O_EXCL | O_RDWR and O_RDWR.
pub data OpenFlags : Type 0 where
  create exclusive existing : OpenFlags

-- A descriptor is `none` for -1, an address is `none` for MAP_FAILED, a result is `false` for -1.
-- `errno_eexist` tells whether the last call that failed left EEXIST in `errno`.
pub record Os : Type 1 where
  pub World : Type 0
  pub shm_open : String → OpenFlags → World → Option ℕ × World
  pub errno_eexist : World → Bool
  pub ftruncate : ℕ → ℕ → World → Bool × World
  pub mmap : ℕ → ℕ → World → Option ℕ × World
  pub munmap : ℕ → ℕ → World → World
  pub close : ℕ → World → World
  pub shm_unlink : String → World → Bool × World

-- The first occurrence of a descriptor taken out of a list.
abbrev pub without : ℕ → List ℕ → List ℕ
without fd [] = []
without fd (x ∷ xs) = if x == fd then xs else x ∷ without fd xs

-- The same for a mapping, a pair of an address and a size.
abbrev pub unmapped : ℕ → ℕ → List (ℕ × ℕ) → List (ℕ × ℕ)
unmapped addr size [] = []
unmapped addr size ((a, s) ∷ rest) =
    if a == addr && s == size then rest else (a, s) ∷ unmapped addr size rest

-- What a process can see of the system: its open descriptors, its mappings, the named objects.
pub record View (World : Type 0) : Type 0 where
  pub descriptors : World → List ℕ
  pub mappings : World → List (ℕ × ℕ)
  pub exists? : World → String → Bool

module _ {World : Type 0} (view : View World) where
  open view use {descriptors, mappings, exists?}

  -- Two states look alike.
  pub record Same (w w' : World) : Type 0 where
    pub descriptors_same : descriptors w' ≡ descriptors w
    pub mappings_same : mappings w' ≡ mappings w
    pub exists_same : (name : String) → exists? w' name ≡ exists? w name

  -- A call of `shm_open` that gave a descriptor: O_EXCL had no such object before, O_RDWR alone had
  -- one; there is one now.
  pub record Opened (name : String) (flags : OpenFlags) (fd : ℕ) (w w' : World) : Type 0 where
    pub one_more : descriptors w' ≡ fd ∷ descriptors w
    pub mappings_same : mappings w' ≡ mappings w
    pub new_if_exclusive : flags ≡ OpenFlags.exclusive → exists? w name ≡ false
    pub old_if_existing : flags ≡ OpenFlags.existing → exists? w name ≡ true
    pub now_exists : exists? w' name ≡ true
    pub others_same : (other : String) → other ≢ name → exists? w' other ≡ exists? w other

  abbrev pub OpenLaw : String → OpenFlags → World → Option ℕ → World → Type 0
  OpenLaw name flags w none w' = Same w w'
  OpenLaw name flags w (some fd) w' = Opened name flags fd w w'

  -- The system never chooses the address 0 for a mapping.
  pub record Mapped (size addr : ℕ) (w w' : World) : Type 0 where
    pub not_null : addr ≢ 0
    pub one_more : mappings w' ≡ (addr, size) ∷ mappings w
    pub descriptors_same : descriptors w' ≡ descriptors w
    pub exists_same : (name : String) → exists? w' name ≡ exists? w name

  abbrev pub MapLaw : ℕ → World → Option ℕ → World → Type 0
  MapLaw size w none w' = Same w w'
  MapLaw size w (some addr) w' = Mapped size addr w w'

  pub record Unlinked (name : String) (w w' : World) : Type 0 where
    pub descriptors_same : descriptors w' ≡ descriptors w
    pub mappings_same : mappings w' ≡ mappings w
    pub gone : exists? w' name ≡ false
    pub others_same : (other : String) → other ≢ name → exists? w' other ≡ exists? w other

-- What the code relies on.
pub record Posix (os : Os) (view : View os.World) : Type 0 where
  pub open_law :
      (name : String) (flags : OpenFlags) (w : os.World)
      → OpenLaw view name flags w (os.shm_open name flags w).0 (os.shm_open name flags w).1
  pub ftruncate_law : (fd size : ℕ) (w : os.World) → Same view w (os.ftruncate fd size w).1
  pub mmap_law :
      (size fd : ℕ) (w : os.World) → MapLaw view size w (os.mmap size fd w).0 (os.mmap size fd w).1
  pub munmap_descriptors :
      (addr size : ℕ) (w : os.World) → view.descriptors (os.munmap addr size w) ≡ view.descriptors w
  pub munmap_mappings :
      (addr size : ℕ) (w : os.World)
      → view.mappings (os.munmap addr size w) ≡ unmapped addr size (view.mappings w)
  pub munmap_exists :
      (addr size : ℕ) (w : os.World) (name : String)
      → view.exists? (os.munmap addr size w) name ≡ view.exists? w name
  pub close_descriptors :
      (fd : ℕ) (w : os.World) → view.descriptors (os.close fd w) ≡ without fd (view.descriptors w)
  pub close_mappings : (fd : ℕ) (w : os.World) → view.mappings (os.close fd w) ≡ view.mappings w
  pub close_exists :
      (fd : ℕ) (w : os.World) (name : String)
      → view.exists? (os.close fd w) name ≡ view.exists? w name
  -- An object that exists can be unlinked.
  pub unlink_law :
      (name : String) (w : os.World)
      → view.exists? w name ≡ true
      → Unlinked view name w (os.shm_unlink name w).1
