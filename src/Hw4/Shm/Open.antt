-- ===== src/Hw4/Shm/Open.antt =====
-- `create_or_open_shared_memory`, `open_shared_memory` and `create_shared_memory` of
-- hw4/shm_utils.cpp: what they acquire, and that a failure leaves nothing behind.
use hse_multithreading_examp.Hw4.Os.{Unlinked, Os, View, Posix, Same, Opened, OpenLaw, existing}
use hse_multithreading_examp.Prelude.{
  ◌⊎◌, ℕ, ◌≡◌, refl, sym, ◌∙◌, ◌≢◌, Bool, true, false, not, Option, none, some, ◌==◌, Bool-cases,
  inl, inr,
}
use Prim.Native.String.{String}
use text.Mathlib.Text.{◌==◌ as str_eq}
use text.Mathlib.TextEquality.{eq_iff}
use hse_multithreading_examp.Hw4.Shm.{SharedMemoryRegion, map_fd, open_region}
use hse_multithreading_examp.Hw4.Shm.Map.{Acquired, MapResult, map_fd-MapResult}

-- Two texts are the same, or they differ.
pub text_cases : (s t : String) → (s ≡ t) ⊎ (s ≢ t)
text_cases s t = elim (Bool-cases (str_eq s t)) [
  | inl e ↦ inl ((eq_iff s t).0 e)
  | inr e ↦ inr (λ p. let q : str_eq s t ≡ true = (eq_iff s t).1 p in cc)
]

-- What `open_shared_memory` comes to: it changes no named object, and after a failure the process
-- has the descriptors and the mappings that it had.
abbrev pub OpenResult :
    {World : Type 0}
    → View World
    → ℕ
    → SharedMemoryRegion
    → World
    → Bool
    → SharedMemoryRegion
    → World
    → Type 0
OpenResult view size region w true region' w' =
    Acquired view size region' w w' × ((name : String) → view.exists? w' name ≡ view.exists? w name)
OpenResult view size region w false region' w' = (region' ≡ region) × Same view w w'

-- What `create_or_open_shared_memory` comes to: after a success the object exists, and
-- `was_created` tells whether it is new; after a failure all is as it was, and an object that did
-- not exist does not exist.
abbrev pub CreateResult :
    {World : Type 0}
    → View World
    → String
    → ℕ
    → SharedMemoryRegion
    → Bool
    → World
    → Bool
    → SharedMemoryRegion
    → Bool
    → World
    → Type 0
CreateResult view name size region was_created w true region' was_created' w' =
    Acquired view size region' w w'
    × (was_created' ≡ not (view.exists? w name))
    × (view.exists? w' name ≡ true)
    × ((other : String) → other ≢ name → view.exists? w' other ≡ view.exists? w other)
CreateResult view name size region was_created w false region' was_created' w' =
    (region' ≡ region) × (was_created' ≡ was_created) × Same view w w'

module _ {os : Os} {view : View os.World} (posix : Posix os view) where
  pub Same-refl : (w : os.World) → Same view w w
  Same-refl w = record { descriptors_same = refl; mappings_same = refl; exists_same = λ name. refl }

  pub Same-trans : (w w1 w2 : os.World) → Same view w w1 → Same view w1 w2 → Same view w w2
  Same-trans w w1 w2 before after = record {
    descriptors_same = after.descriptors_same ∙ before.descriptors_same;
    mappings_same = after.mappings_same ∙ before.mappings_same;
    exists_same = λ name. after.exists_same name ∙ before.exists_same name;
  }

  -- Opening an object that exists changes no object.
  pub existing_same :
      (name : String) (fd : ℕ) (w w1 : os.World)
      → Opened view name existing fd w w1
      → (other : String) → view.exists? w1 other ≡ view.exists? w other
  existing_same name fd w w1 law other = elim (text_cases other name) [
    | inl same ↦ rw same (law.now_exists ∙ sym (law.old_if_existing refl))
    | inr differs ↦ law.others_same other differs
  ]

  -- A descriptor for an object that existed.
  pub map_existing :
      (size : ℕ) (region : SharedMemoryRegion) (w w1 : os.World)
      → ((other : String) → view.exists? w1 other ≡ view.exists? w other)
      → (done : Bool) (region' : SharedMemoryRegion) (w' : os.World)
      → MapResult view size region w w1 done region' w'
      → OpenResult view size region w done region' w'
  map_existing size region w w1 objects true region' w' r = (r.0, λ name. r.1 name ∙ objects name)
  map_existing size region w w1 objects false region' w' r = (
    r.0,
    record {
      descriptors_same = r.1;
      mappings_same = r.2;
      exists_same = λ name. r.3 name ∙ objects name;
    },
  )

  -- `open_shared_memory` with a name and a region: it succeeds with one descriptor and one mapping
  -- more, or changes nothing; named objects stay as they are either way.
  pub open_region-OpenResult :
      (name : String) (size : ℕ) (region : SharedMemoryRegion) (w : os.World)
      → let (done, region', w') = open_region os name size region w in
        OpenResult view size region w done region' w'
  unfolding open_region
  open_region-OpenResult name size region w = elim (Bool-cases (size == 0)) [
    | inl none_wanted ↦ rw none_wanted (refl, Same-refl w)
    | inr wanted ↦ rw wanted (
        go (os.shm_open name existing w).0 (os.shm_open name existing w).1
          (posix.open_law name existing w))
  ]
    where
      go :
          (opened : Option ℕ) (w1 : os.World)
          → OpenLaw view name existing w opened w1
          → let r : Bool × SharedMemoryRegion × os.World = elim opened [
            | none ↦ (false, region, w1)
            | some fd ↦ map_fd os fd size region w1
          ] in
            OpenResult view size region w r.0 r.1 r.2
      go none w1 law = (refl, law)
      go (some fd) w1 law =
          map_existing size region w w1 (existing_same name fd w w1 law) _ _ _
            (map_fd-MapResult posix fd size region w w1 law.one_more law.mappings_same)

  -- Unlinking an object that was made a moment ago.
  pub unlinked-Same :
      (name : String) (w w3 : os.World)
      → view.exists? w name ≡ false
      → view.descriptors w3 ≡ view.descriptors w
      → view.mappings w3 ≡ view.mappings w
      → view.exists? w3 name ≡ true
      → ((other : String) → other ≢ name → view.exists? w3 other ≡ view.exists? w other)
      → Same view w (os.shm_unlink name w3).1
  unlinked-Same name w w3 missing fds maps made others = record {
    descriptors_same = law.descriptors_same ∙ fds;
    mappings_same = law.mappings_same ∙ maps;
    exists_same = λ other. elim (text_cases other name) [
      | inl same ↦ rw same (law.gone ∙ sym missing)
      | inr differs ↦ law.others_same other differs ∙ others other differs
    ];
  }
    where
      law : Unlinked view name w3 (os.shm_unlink name w3).1
      law = posix.unlink_law name w3 made
