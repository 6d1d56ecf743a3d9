-- ===== src/Hw4/Shm/Create.antt =====
-- `create_or_open_shared_memory` of hw4/shm_utils.cpp: what it acquires and reports, and that a
-- failure leaves nothing behind.
use Prim.Native.String.{String}
use hse_multithreading_examp.Prelude.{
  ℕ, ◌≡◌, refl, ◌∙◌, ◌≢◌, Bool, true, false, not, Option, none, some, ap, ◌∷◌, ◌==◌, Bool-cases,
  inl, inr, if◌then◌else◌,
}
use hse_multithreading_examp.Hw4.Os.{Os, View, Posix, Same, Opened, OpenLaw, exclusive, existing}
use hse_multithreading_examp.Hw4.Shm.{
  SharedMemoryRegion, map_fd, Outcome, failed, map_or_undo, create_or_open_region,
}
use hse_multithreading_examp.Hw4.Shm.Map.{MapResult, map_fd-MapResult, released}
use hse_multithreading_examp.Hw4.Shm.Open.{
  CreateResult, Same-trans, Same-refl, existing_same, unlinked-Same,
}

module _ {os : Os} {view : View os.World} (posix : Posix os view) where
  -- `CreateResult` of an outcome.
  abbrev pub Created : String → ℕ → SharedMemoryRegion → Bool → os.World → Outcome os → Type 0
  Created name size region was_created w o =
      CreateResult view name size region was_created w o.done o.region o.was_created o.world

  -- From `mmap` on, for an object that was made a moment ago.
  map_new :
      (name : String) (fd size : ℕ) (region : SharedMemoryRegion) (was_created : Bool)
      (w w1 w2 : os.World)
      → Opened view name exclusive fd w w1
      → Same view w1 w2
      → Created name size region was_created w
          (map_or_undo os name true fd size region was_created w2)
  unfolding map_or_undo
  map_new name fd size region was_created w w1 w2 law same =
      go (map_fd os fd size region w2).0 (map_fd os fd size region w2).1
        (map_fd os fd size region w2).2
        (map_fd-MapResult posix fd size region w w2 (same.descriptors_same ∙ law.one_more)
          (same.mappings_same ∙ law.mappings_same))
    where
      others : (other : String) → other ≢ name → view.exists? w2 other ≡ view.exists? w other
      others other differs = same.exists_same other ∙ law.others_same other differs

      go :
          (done : Bool) (region' : SharedMemoryRegion) (w' : os.World)
          → MapResult view size region w w2 done region' w'
          → let o : Outcome os =
              if done
              then record { done = true; region = region'; was_created = true; world = w' }
              else failed os region' was_created (os.shm_unlink name w').1 in
            Created name size region was_created w o
      go true region' w' r = (
        r.0,
        rw (law.new_if_exclusive refl),
        r.1 name ∙ (same.exists_same name ∙ law.now_exists),
        λ other differs. r.1 other ∙ others other differs,
      )
      go false region' w' r = (
        r.0,
        refl,
        unlinked-Same posix name w w' (law.new_if_exclusive refl) r.1 r.2
            (r.3 name ∙ (same.exists_same name ∙ law.now_exists))
            (λ other differs. r.3 other ∙ others other differs),
      )

  map_old :
      (name : String) (fd size : ℕ) (region : SharedMemoryRegion) (was_created : Bool)
      (w w1 w2 : os.World)
      → Same view w w1
      → Opened view name existing fd w1 w2
      → Created name size region was_created w
          (map_or_undo os name false fd size region was_created w2)
  unfolding map_or_undo
  map_old name fd size region was_created w w1 w2 same law =
      go (map_fd os fd size region w2).0 (map_fd os fd size region w2).1
        (map_fd os fd size region w2).2
        (map_fd-MapResult posix fd size region w w2
          (law.one_more ∙ ap (λ t. fd ∷ t) same.descriptors_same)
          (law.mappings_same ∙ same.mappings_same))
    where
      objects : (other : String) → view.exists? w2 other ≡ view.exists? w other
      objects other = existing_same posix name fd w1 w2 law other ∙ same.exists_same other

      go :
          (done : Bool) (region' : SharedMemoryRegion) (w' : os.World)
          → MapResult view size region w w2 done region' w'
          → let o : Outcome os =
              if done
              then record { done = true; region = region'; was_created = false; world = w' }
              else failed os region' was_created w' in
            Created name size region was_created w o
      go true region' w' r = (
        r.0,
        rw (← objects name, law.now_exists),
        r.1 name ∙ law.now_exists,
        λ other differs. r.1 other ∙ objects other,
      )
      go false region' w' r = (
        r.0,
        refl,
        record {
          descriptors_same = r.1;
          mappings_same = r.2;
          exists_same = λ other. r.3 other ∙ objects other;
        },
      )

  -- After `shm_open` with O_EXCL failed because the object exists.
  reopen :
      (name : String) (size : ℕ) (region : SharedMemoryRegion) (was_created : Bool)
      (w w1 : os.World)
      → Same view w w1
      → let (reopened, w2) = os.shm_open name existing w1 in
        let o : Outcome os = elim reopened [
          | none ↦ failed os region was_created w2
          | some fd ↦ map_or_undo os name false fd size region was_created w2
        ] in
        Created name size region was_created w o
  reopen name size region was_created w w1 same =
      go (os.shm_open name existing w1).0 (os.shm_open name existing w1).1
        (posix.open_law name existing w1)
    where
      go :
          (reopened : Option ℕ) (w2 : os.World)
          → OpenLaw view name existing w1 reopened w2
          → let o : Outcome os = elim reopened [
            | none ↦ failed os region was_created w2
            | some fd ↦ map_or_undo os name false fd size region was_created w2
          ] in
            Created name size region was_created w o
      go none w2 law = (refl, refl, Same-trans posix w w1 w2 same law)
      go (some fd) w2 law = map_old name fd size region was_created w w1 w2 same law

  -- After `shm_open` with O_EXCL made the object.
  resize :
      (name : String) (fd size : ℕ) (region : SharedMemoryRegion) (was_created : Bool)
      (w w1 : os.World)
      → Opened view name exclusive fd w w1
      → let (sized, w2) = os.ftruncate fd size w1 in
        let o : Outcome os =
          if sized
          then map_or_undo os name true fd size region was_created w2
          else failed os region was_created (os.shm_unlink name (os.close fd w2)).1 in
        Created name size region was_created w o
  resize name fd size region was_created w w1 law =
      go (os.ftruncate fd size w1).0 (os.ftruncate fd size w1).1 (posix.ftruncate_law fd size w1)
    where
      go :
          (sized : Bool) (w2 : os.World)
          → Same view w1 w2
          → let o : Outcome os =
              if sized
              then map_or_undo os name true fd size region was_created w2
              else failed os region was_created (os.shm_unlink name (os.close fd w2)).1 in
            Created name size region was_created w o
      go true w2 same = map_new name fd size region was_created w w1 w2 law same
      go false w2 same = (
        refl,
        refl,
        unlinked-Same posix name w (os.close fd w2) (law.new_if_exclusive refl)
            (released posix fd w w2 (same.descriptors_same ∙ law.one_more))
            (posix.close_mappings fd w2 ∙ (same.mappings_same ∙ law.mappings_same))
            (posix.close_exists fd w2 name ∙ (same.exists_same name ∙ law.now_exists))
            (λ other differs.
              posix.close_exists fd w2 other
              ∙ (same.exists_same other ∙ law.others_same other differs)),
      )

  -- `create_or_open_shared_memory` with non-null arguments: after a success the process has one
  -- descriptor and one mapping more, the object exists, and `was_created` tells whether it is new;
  -- after a failure the process and the named objects are as they were, the new object included.
  pub create_or_open-CreateResult :
      (name : String) (size : ℕ) (region : SharedMemoryRegion) (was_created : Bool) (w : os.World)
      → let o = create_or_open_region os name size region was_created w in
        CreateResult view name size region was_created w o.done o.region o.was_created o.world
  unfolding create_or_open_region
  create_or_open-CreateResult name size region was_created w = elim (Bool-cases (size == 0)) [
    | inl nothing ↦ rw nothing (refl, refl, Same-refl posix w)
    | inr wanted ↦ rw wanted (
        go (os.shm_open name exclusive w).0 (os.shm_open name exclusive w).1
          (posix.open_law name exclusive w))
  ]
    where
      go :
          (opened : Option ℕ) (w1 : os.World)
          → OpenLaw view name exclusive w opened w1
          → let o : Outcome os = elim opened [
            | some fd ↦
                (let (sized, w2) = os.ftruncate fd size w1 in
                  if sized
                  then map_or_undo os name true fd size region was_created w2
                  else failed os region was_created (os.shm_unlink name (os.close fd w2)).1)
            | none ↦
                if not (os.errno_eexist w1)
                then failed os region was_created w1
                else (let (reopened, w2) = os.shm_open name existing w1 in
                    elim reopened [
                      | none ↦ failed os region was_created w2
                      | some fd ↦ map_or_undo os name false fd size region was_created w2
                    ])
          ] in
            Created name size region was_created w o
      go none w1 same = elim (Bool-cases (not (os.errno_eexist w1))) [
        | inl other_error ↦ rw other_error (refl, refl, same)
        | inr exists ↦ rw exists (reopen name size region was_created w w1 same)
      ]
      go (some fd) w1 law = resize name fd size region was_created w w1 law
