-- ===== src/Ipc/Exchange/Names/Ends.antt =====
-- What the start and the end of ipc/shm_intro.cpp and ipc/mmap_intro.cpp leave of the names, and what a
-- name that was left does to the next run.
use hse_multithreading_examp.Prelude.{
  ℕ, suc, ◌≡◌, ◌≢◌, refl, Bool, true, Option, none, some, List, [], ◌∷◌, arith, Bool-cases, inl,
  inr, ap, ◌∙◌,
}
use hse_multithreading_examp.Ipc.Exchange.{
  SharedData, await, child_exited, State, state, Step, read_line, write_buffer, post_write,
  wait_read, wait_write, stop, Reach, here, later,
}
use hse_multithreading_examp.Ipc.Exchange.Turns.{printed, HasExited}
use hse_multithreading_examp.Ipc.Exchange.Names.{
  Names, Call, open_write, open_read_done, Memory, object, anonymous, value_of, share, set_up,
  clean_up, begin,
}

-- No semaphore has another value, and none that existed is gone.
pub record Kept (n n' : Names) : Type 0 where
  pub write_value : value_of n'.write_sema ≡ value_of n.write_sema
  pub read_done_value : value_of n'.read_done_sema ≡ value_of n.read_done_sema
  pub write_there : n.write_sema ≢ none → n'.write_sema ≡ n.write_sema
  pub read_done_there : n.read_done_sema ≢ none → n'.read_done_sema ≡ n.read_done_sema

made_there : (o : Option ℕ) → o ≢ none → some (value_of o) ≡ o
made_there none ne = absurd (ne refl)
made_there (some v) ne = refl

-- The size of "/kafka" when the loops start, and when the parent has cleaned up.
abbrev pub shared_size : Memory → Option ℕ → Option ℕ
shared_size object old = some 4096
shared_size anonymous old = old

abbrev pub size_left : Memory → Option ℕ → Option ℕ
size_left object old = none
size_left anonymous old = old

abbrev pub cleaned : Option ℕ → Names
cleaned size = record { read_done_sema = none; write_sema = none; kafka = size }

module _ (fails : Call → Bool) where
  share-Kept :
      (memory : Memory) (n : Names)
      → ((share fails memory n).1.write_sema ≡ n.write_sema)
        × ((share fails memory n).1.read_done_sema ≡ n.read_done_sema)
  unfolding share
  share-Kept object n = ground arith
  share-Kept anonymous n = ground arith

  pub set_up-Kept : (memory : Memory) (n : Names) → Kept n (set_up fails memory n).1
  unfolding set_up
  set_up-Kept memory n = elim (Bool-cases (fails open_write)) [
    | inl e ↦ rw e (record {
      write_value = refl;
      read_done_value = refl;
      write_there = λ ne. refl;
      read_done_there = λ ne. refl;
    })
    | inr e ↦ elim (Bool-cases (fails open_read_done)) [
      | inl f ↦
          rw (e, f)
            (record {
              write_value = refl;
              read_done_value = refl;
              write_there = λ ne. made_there n.write_sema ne;
              read_done_there = λ ne. refl;
            })
      | inr f ↦
          rw (e, f)
            (let (w, r) = share-Kept memory (record {
              write_sema = some (value_of n.write_sema);
              read_done_sema = some (value_of n.read_done_sema);
              kafka = n.kafka;
            }) in
              record {
                write_value = ap value_of w;
                read_done_value = ap value_of r;
                write_there = λ ne. w ∙ made_there n.write_sema ne;
                read_done_there = λ ne. r ∙ made_there n.read_done_sema ne;
              })
    ]
  ]

  share-ready :
      (memory : Memory) (n : Names)
      → (share fails memory n).0 ≡ true
      → (share fails memory n).1 ≡ record n { kafka = shared_size memory n.kafka }
  unfolding share
  share-ready object n h = ground arith
  share-ready anonymous n h = ground arith

  clean :
      (memory : Memory) (n : Names)
      → (clean_up fails memory n).0 ≡ true
      → (clean_up fails memory n).1
        ≡ record { read_done_sema = none; write_sema = none; kafka = size_left memory n.kafka }
  unfolding clean_up
  clean object n h = ground arith
  clean anonymous n h = ground arith

  set_up-ready :
      (memory : Memory) (n : Names)
      → (set_up fails memory n).0 ≡ true
      → (set_up fails memory n).1 ≡ record {
        write_sema = some (value_of n.write_sema);
        read_done_sema = some (value_of n.read_done_sema);
        kafka = shared_size memory n.kafka;
      }
  unfolding set_up
  set_up-ready memory n h = elim (Bool-cases (fails open_write)) [
    | inl e ↦ absurd (ground arith)
    | inr e ↦ elim (Bool-cases (fails open_read_done)) [
      | inl f ↦ absurd (ground arith)
      | inr f ↦
          rw (e, f)
            (share-ready memory
              (record {
                write_sema = some (value_of n.write_sema);
                read_done_sema = some (value_of n.read_done_sema);
                kafka = n.kafka;
              })
              (ground arith))
    ]
  ]

-- Whatever call fails: up to the loops no semaphore gets another value than it was left with, and none
-- that existed is gone. If no call has failed up to there, both semaphores exist, and the object of
-- shm_intro has its size; if none has failed behind the loops either, the names of both semaphores are
-- gone, and in shm_intro the object's.
set_up_and_clean_up :
    (fails : Call → Bool) (memory : Memory) (n : Names)
    → Kept n (set_up fails memory n).1
      × ((set_up fails memory n).0 ≡ true
          → ((set_up fails memory n).1 ≡ record {
            write_sema = some (value_of n.write_sema);
            read_done_sema = some (value_of n.read_done_sema);
            kafka = shared_size memory n.kafka;
          })
            × ((clean_up fails memory (set_up fails memory n).1).0 ≡ true
                → (clean_up fails memory (set_up fails memory n).1).1 ≡ record {
                  read_done_sema = none;
                  write_sema = none;
                  kafka = size_left memory n.kafka;
                }))
set_up_and_clean_up fails memory n = (
  set_up-Kept fails memory n,
  λ h.
      let ready = set_up-ready fails memory n h in
      (
        ready,
        λ g.
            clean fails memory (set_up fails memory n).1 g
            ∙ ap
                (λ (m : Names). record {
                  read_done_sema = none;
                  write_sema = none;
                  kafka = size_left memory m.kafka;
                })
                ready
            ∙ left_twice memory,
      ),
)
  where
    left_twice :
        (kind : Memory)
        → cleaned (size_left kind (shared_size kind n.kafka)) ≡ cleaned (size_left kind n.kafka)
    left_twice object = refl
    left_twice anonymous = refl

-- Before the first line, a semaphore "/write_sema" that an earlier run left above 0 lets the child
-- through: it reads the size 0 of cleared memory and exits, and the parent waits for its answer to the
-- first line for ever.
pub leftover_blocks :
    (k : ℕ) (size : Option ℕ) (line : List ℕ) (rest : List (List ℕ))
    → let n : Names = record { write_sema = some (suc k); read_done_sema = none; kafka = size } in
      (t : State) × Reach (begin n (line ∷ rest)) t
      × ((u : State) → ¬ Step t u)
      × ¬ HasExited t
      × (printed t ≡ [])
leftover_blocks k size line rest = (
  _,
  later
      (later (later (later (later here (wait_write (omega arith))) (stop refl)) read_line)
        write_buffer)
      post_write,
  no_step,
  (λ h. cc),
  refl,
)
  where
    no_step :
        {m : SharedData} {w : ℕ} (u : State)
        → ¬ Step (state m w 0 (await line rest) child_exited []) u
    no_step u (wait_read nz) = nz refl
