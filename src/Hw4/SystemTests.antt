-- ===== src/Hw4/SystemTests.antt =====
-- A small system that behaves as POSIX documents, and hw4's functions and programs on it.
use hse_multithreading_examp.Prelude.{
  update, ℕ, suc, ◌≡◌, ◌≢◌, refl, Bool, true, false, Option, none, some, List, [], ◌∷◌, arith,
  if◌then◌else◌, Bool-cases, inl, inr, ◌==◌, update, sym,
}
use Prim.Native.String.{String}
use text.Mathlib.Text.{◌==◌ as str_eq}
use text.Mathlib.TextEquality.{eq_iff}
use hse_multithreading_examp.Hw4.Shm.{
  no_region, open_region, map_fd, map_or_undo, create_or_open_region, close_region,
  get_queue_memory_size,
}
use hse_multithreading_examp.Hw4.Shm.Open.{CreateResult}
use hse_multithreading_examp.Hw4.Shm.Create.{create_or_open-CreateResult}
use hse_multithreading_examp.Hw4.Shm.Close.{close-create_or_open}
use hse_multithreading_examp.Hw4.Memory.{Memory, Plain}
use hse_multithreading_examp.Hw4.Consumer
use hse_multithreading_examp.Hw4.Consumer.{Ended}
use hse_multithreading_examp.Hw4.Consumer.Loop.{HasZero}
use hse_multithreading_examp.Hw4.Consumer.Total.{TextsEnd}
use hse_multithreading_examp.Hw4.Queue.Contents.{message_of}
use mathlib.Core.Path.{subst}
use hse_multithreading_examp.Hw4.Consumer.Exits.{UnlinkPlain, consumer-Released}
use hse_multithreading_examp.Hw4.Protocol.{SharedQueueLayout}
use hse_multithreading_examp.Hw4.Os.{
  Os, OpenFlags, create, exclusive, existing, View, Opened, OpenLaw, Posix, without, unmapped,
}

record System : Type 0 where
  fds : List ℕ
  maps : List (ℕ × ℕ)
  objects : String → Bool
  eexist : Bool
  memory : SharedQueueLayout

abbrev with_object : (String → Bool) → String → Bool → String → Bool
with_object objects name present other = if str_eq other name then present else objects other

abbrev opened : String → System → Option ℕ × System
opened name w =
    (some (suc 2), record w { fds = 3 ∷ w.fds; objects = with_object w.objects name true })

abbrev sys_open : String → OpenFlags → System → Option ℕ × System
sys_open name create w = opened name w
sys_open name exclusive w =
    if w.objects name then (none, record w { eexist = true }) else opened name w
sys_open name existing w =
    if w.objects name then opened name w else (none, record w { eexist = false })

abbrev sys : Os
sys = record {
  World = System;
  shm_open = sys_open;
  errno_eexist = λ w. w.eexist;
  ftruncate = λ fd size w. (true, w);
  mmap = λ size fd w. (some 4096, record w { maps = (4096, size) ∷ w.maps });
  munmap = λ addr size w. record w { maps = unmapped addr size w.maps };
  close = λ fd w. record w { fds = without fd w.fds };
  shm_unlink = λ name w. (w.objects name, record w { objects = with_object w.objects name false });
}

abbrev view : View System
view = record {
  descriptors = λ w. w.fds;
  mappings = λ w. w.maps;
  exists? = λ w name. w.objects name;
}

with_object_self :
    (objects : String → Bool) (name : String) (present : Bool)
    → with_object objects name present name ≡ present
with_object_self objects name present =
    let e : str_eq name name ≡ true = (eq_iff name name).1 refl in rw e

with_object_other :
    (objects : String → Bool) (name : String) (present : Bool) (other : String)
    → other ≢ name
    → with_object objects name present other ≡ objects other
with_object_other objects name present other differs = elim (Bool-cases (str_eq other name)) [
  | inl e ↦ absurd (differs ((eq_iff other name).0 e))
  | inr e ↦ rw e
]

opened_lem :
    (name : String) (flags : OpenFlags) (w : System)
    → (flags ≡ exclusive → w.objects name ≡ false)
    → (flags ≡ existing → w.objects name ≡ true)
    → Opened view name flags 3 w (opened name w).1
opened_lem name flags w new old = record {
  one_more = refl;
  mappings_same = refl;
  new_if_exclusive = new;
  old_if_existing = old;
  now_exists = with_object_self w.objects name true;
  others_same = with_object_other w.objects name true;
}

sys_open_law :
    (name : String) (flags : OpenFlags) (w : System)
    → OpenLaw view name flags w (sys_open name flags w).0 (sys_open name flags w).1
sys_open_law name create w = opened_lem name create w (λ e. cc) (λ e. cc)
sys_open_law name exclusive w = elim (Bool-cases (w.objects name)) [
  | inl there ↦
      rw there
        (record { descriptors_same = refl; mappings_same = refl; exists_same = λ other. refl })
  | inr missing ↦ rw missing (opened_lem name exclusive w (λ e. missing) (λ e. cc))
]
sys_open_law name existing w = elim (Bool-cases (w.objects name)) [
  | inl there ↦ rw there (opened_lem name existing w (λ e. cc) (λ e. there))
  | inr missing ↦
      rw missing
        (record { descriptors_same = refl; mappings_same = refl; exists_same = λ other. refl })
]

sys-Posix : Posix sys view
sys-Posix = record {
  open_law = sys_open_law;
  ftruncate_law = λ fd size w. record {
    descriptors_same = refl;
    mappings_same = refl;
    exists_same = λ other. refl;
  };
  mmap_law = λ size fd w. record {
    not_null = omega arith;
    one_more = refl;
    descriptors_same = refl;
    exists_same = λ name. refl;
  };
  munmap_descriptors = λ addr size w. refl;
  munmap_mappings = λ addr size w. refl;
  munmap_exists = λ addr size w name. refl;
  close_descriptors = λ fd w. refl;
  close_mappings = λ fd w. refl;
  close_exists = λ fd w name. refl;
  unlink_law = λ name w there. record {
    descriptors_same = refl;
    mappings_same = refl;
    gone = with_object_self w.objects name false;
    others_same = with_object_other w.objects name false;
  };
}

abbrev ram : Memory sys
ram = record { load = λ addr w. w.memory; store = λ addr queue w. record w { memory = queue } }

ram-Plain : Plain ram view
ram-Plain = record {
  store_descriptors = λ addr queue w. refl;
  store_mappings = λ addr queue w. refl;
}

sys_unlink : UnlinkPlain sys view
sys_unlink = record { unlink_descriptors = λ name w. refl; unlink_mappings = λ name w. refl }

-- A process with its three standard descriptors, and no named object.
abbrev booted : System
booted = record {
  fds = 0 ∷ 1 ∷ 2 ∷ [];
  maps = [];
  objects = λ name. false;
  eexist = false;
  memory = record {
    meta = record { magic = 0; version = 0; capacity = 0; max_payload_size = 0 };
    write_index = 0;
    read_index = 0;
    slots = λ i. record { state = 0; header = record { type = 0; length = 0 }; payload = [] };
  };
}

-- The same with the object that the programs use.
abbrev with_queue : System
with_queue = record booted { objects = with_object (λ name. false) "/hw4_queue" true }

create_or_open-CreateResult_example :
    let o = create_or_open_region sys "/hw4_queue" 4320 no_region false booted in
    CreateResult view "/hw4_queue" 4320 no_region false booted o.done o.region o.was_created o.world
create_or_open-CreateResult_example =
    create_or_open-CreateResult sys-Posix "/hw4_queue" 4320 no_region false booted

open_succeeds : (open_region sys "/hw4_queue" 4320 no_region with_queue).0 ≡ true
unfolding open_region map_fd
open_succeeds = refl

create_succeeds : (create_or_open_region sys "/hw4_queue" 4320 no_region false booted).done ≡ true
unfolding create_or_open_region map_or_undo map_fd
create_succeeds = refl

close-create_or_open_example :
    let o = create_or_open_region sys "/hw4_queue" 4320 no_region false booted in
    let (region'', w'') = close_region sys o.region o.world in
    (region'' ≡ no_region)
    × (view.descriptors w'' ≡ booted.fds)
    × (view.mappings w'' ≡ booted.maps)
    × (view.exists? w'' "/hw4_queue" ≡ true)
close-create_or_open_example =
    close-create_or_open sys-Posix "/hw4_queue" 4320 no_region false booted create_succeeds

abbrev digits : String → ℕ
digits s = 4320

-- The same system with a valid queue in memory that holds one text.
abbrev one_text : SharedQueueLayout
one_text = record {
  meta = record { magic = 0x48573431; version = 1; capacity = 16; max_payload_size = 256 };
  write_index = 1;
  read_index = 0;
  slots =
      update (λ _. record { state = 0; header = record { type = 0; length = 0 }; payload = [] }) 0
        (record { state = 2; header = record { type = 1; length = 2 }; payload = 104 ∷ 0 ∷ [] });
}

one_text-TextsEnd : TextsEnd one_text
one_text-TextsEnd i lt at_ready is = elim (Bool-cases (0 == i)) [
  | inl first ↦
      let e : 0 ≡ i = ground arith in
      subst (λ k. HasZero (message_of (one_text.slots k)).bytes) e tt
  | inr other ↦ absurd (let z : 0 ≡ 2 = rw other at at_ready in omega arith)
]

abbrev text_waiting : System
text_waiting = record with_queue { memory = one_text }

open_keeps_memory :
    (name : String) (size : ℕ) (w : System)
    → (open_region sys name size no_region w).2.memory ≡ w.memory
unfolding open_region map_fd
open_keeps_memory name size w = elim (Bool-cases (size == 0)) [
  | inl z ↦ rw z
  | inr z ↦ elim (Bool-cases (w.objects name)) [
    | inl there ↦ rw (z, there) (rw there refl)
    | inr missing ↦ rw (z, missing) (rw missing refl)
  ]
]

consumer-Released_example :
    (e : Ended sys) × (Consumer.main sys ram digits 17 [] text_waiting ≡ some e)
    × ((view.descriptors e.world ≡ text_waiting.fds) × (view.mappings e.world ≡ text_waiting.maps))
consumer-Released_example =
    consumer-Released sys-Posix sys_unlink ram ram-Plain digits [] text_waiting (λ args e.
      subst TextsEnd (sym (open_keeps_memory args.shm_name args.queue_size text_waiting))
        one_text-TextsEnd)

-- hw4/TESTS.md reports a region of 4320 bytes.
queue_memory_size : get_queue_memory_size ≡ 4320
unfolding get_queue_memory_size
queue_memory_size = refl
