-- ===== src/Hw4/Shm/Map.antt =====
-- The last part of the functions of hw4/shm_utils.cpp that make a region: `mmap`, and what a
-- failure undoes.
use hse_multithreading_examp.Hw4.Os.{without, Os, View, Posix, MapLaw}
use hse_multithreading_examp.Prelude.{
  ap, ℕ, ◌≡◌, refl, ◌∙◌, ◌≢◌, Bool, true, false, Option, none, some, ◌∷◌, eqb_refl,
}
use Prim.Native.String.{String}
use hse_multithreading_examp.Hw4.Shm.{SharedMemoryRegion, map_fd}

-- What a region that was made comes with: one descriptor and one mapping more.
pub record Acquired {World : Type 0} (view : View World) (size : ℕ) (region : SharedMemoryRegion)
    (w w' : World) : Type 0 where
  pub fd : ℕ
  pub has_fd : region.fd ≡ some fd
  pub has_size : region.size ≡ size
  pub not_null : region.addr ≢ 0
  pub descriptors_more : view.descriptors w' ≡ fd ∷ view.descriptors w
  pub mappings_more : view.mappings w' ≡ (region.addr, size) ∷ view.mappings w

-- From a state `w0` that had one descriptor less: the region is made, or all is as in `w0`.
abbrev pub MapResult :
    {World : Type 0}
    → View World
    → ℕ
    → SharedMemoryRegion
    → World
    → World
    → Bool
    → SharedMemoryRegion
    → World
    → Type 0
MapResult view size region w0 w true region' w' =
    Acquired view size region' w0 w'
    × ((name : String) → view.exists? w' name ≡ view.exists? w name)
MapResult view size region w0 w false region' w' =
    (region' ≡ region)
    × (view.descriptors w' ≡ view.descriptors w0)
    × (view.mappings w' ≡ view.mappings w0)
    × ((name : String) → view.exists? w' name ≡ view.exists? w name)

module _ {os : Os} {view : View os.World} (posix : Posix os view) where
  -- Closing the descriptor that was opened last.
  pub released :
      (fd : ℕ) (w0 w : os.World)
      → view.descriptors w ≡ fd ∷ view.descriptors w0
      → view.descriptors (os.close fd w) ≡ view.descriptors w0
  released fd w0 w held = posix.close_descriptors fd w ∙ (ap (without fd) held ∙ rw (eqb_refl fd))

  pub map_fd-MapResult :
      (fd size : ℕ) (region : SharedMemoryRegion) (w0 w : os.World)
      → view.descriptors w ≡ fd ∷ view.descriptors w0
      → view.mappings w ≡ view.mappings w0
      → let (done, region', w') = map_fd os fd size region w in
        MapResult view size region w0 w done region' w'
  unfolding map_fd
  map_fd-MapResult fd size region w0 w held same =
      go (os.mmap size fd w).0 (os.mmap size fd w).1 (posix.mmap_law size fd w)
    where
      go :
          (mapped : Option ℕ) (w1 : os.World)
          → MapLaw view size w mapped w1
          → let r : Bool × SharedMemoryRegion × os.World = elim mapped [
            | none ↦ (false, region, os.close fd w1)
            | some a ↦ (true, record { fd = some fd; addr = a; size = size }, w1)
          ] in
            MapResult view size region w0 w r.0 r.1 r.2
      go none w1 law = (
        refl,
        released fd w0 w1 (law.descriptors_same ∙ held),
        posix.close_mappings fd w1 ∙ law.mappings_same ∙ same,
        λ name. posix.close_exists fd w1 name ∙ law.exists_same name,
      )
      go (some a) w1 law = (
        record {
          fd = fd;
          has_fd = refl;
          has_size = refl;
          not_null = law.not_null;
          descriptors_more = law.descriptors_same ∙ held;
          mappings_more = law.one_more ∙ ap (λ rest. (a, size) ∷ rest) same;
        },
        law.exists_same,
      )
