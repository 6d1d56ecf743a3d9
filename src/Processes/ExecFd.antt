-- ===== src/Processes/ExecFd.antt =====
-- processes_and_threads/exec/exec_fd.cpp and exec/writer.cpp: a descriptor that a child hands to the
-- program that it executes, with O_CLOEXEC and without.
use hse_multithreading_examp.Prelude.{
  ℕ, ◌≡◌, refl, sym, ap, ◌∙◌, Bool, true, false, Option, none, some, List, [], ◌∷◌, ◌++◌, ◌==◌,
  if◌then◌else◌, eqb_refl, Bool-cases, inl, inr,
}
use hse_multithreading_examp.Processes.Files.{Description, write, write_at_end}

pub data Exit : Type 0 where
  success failure : Exit

-- An open descriptor of a process, all on example.txt but for those that the process was started with,
-- which are none of the program's.
pub record Descriptor : Type 0 where
  pub number : ℕ
  pub close_on_exec : Bool

abbrev pub is_open : ℕ → List Descriptor → Bool
is_open fd [] = false
is_open fd (d ∷ table) = if d.number == fd then true else is_open fd table

-- `execl` closes the descriptors with the flag.
abbrev pub after_exec : List Descriptor → List Descriptor
after_exec [] = []
after_exec (d ∷ table) = if d.close_on_exec then after_exec table else d ∷ after_exec table

abbrev pub after_close : ℕ → List Descriptor → List Descriptor
after_close fd [] = []
after_close fd (d ∷ table) = if d.number == fd then table else d ∷ after_close fd table

-- "Write from child process\n"
abbrev pub message : List ℕ
message =
    87 ∷ 114 ∷ 105 ∷ 116 ∷ 101 ∷ 32 ∷ 102 ∷ 114 ∷ 111 ∷ 109 ∷ 32 ∷ 99 ∷ 104 ∷ 105 ∷ 108 ∷ 100 ∷ 32
    ∷ 112 ∷ 114 ∷ 111 ∷ 99 ∷ 101 ∷ 115 ∷ 115 ∷ 10 ∷ []

-- O_CREAT makes an empty file where there is none.
abbrev pub content_of : Option (List ℕ) → List ℕ
content_of none = []
content_of (some bytes) = bytes

-- `std::to_string` and `std::stoi` are parameters; `stoi` is `none` when it throws, which ends the
-- program.
module _ {Argument : Type 0} (writer_name : Argument) (to_string : ℕ → Argument)
    (stoi : Argument → Option ℕ) where
  -- The program writer, with the file that its descriptor is on.
  unfoldable pub write_and_close : List Descriptor → Option ℕ → Description → Exit × Description
  write_and_close table none file = (failure, file)
  write_and_close table (some fd) file =
      if is_open fd table then (success, write message file) else (failure, file)

  unfoldable pub writer : List Descriptor → List Argument → Description → Exit × Description
  writer table (name ∷ argument ∷ []) file = write_and_close table (stoi argument) file
  writer table _ file = (failure, file)

  -- RunExample, for the descriptor that `open` gives and the table before it. `content` is that of
  -- example.txt, if there is one. What it gives is how the child ended, and the
  -- parent's table and the file behind the last `close`.
  unfoldable pub run_example :
      Bool → ℕ → List Descriptor → Option (List ℕ) → Exit × List Descriptor × List ℕ
  run_example close_on_exec fd table content =
      let file : Description = record { content = content_of content; offset = 0; append = true } in
      let own : List Descriptor = record { number = fd; close_on_exec = close_on_exec } ∷ table in
      let (exit, file') = writer (after_exec own) (writer_name ∷ to_string fd ∷ []) file in
      (exit, after_close fd own, file'.content)

  -- `main`: the second call finds the file that the first has left.
  unfoldable pub main :
      ℕ → ℕ → List Descriptor → Option (List ℕ) → Exit × Exit × List Descriptor × List ℕ
  main first second table content =
      let (exit1, table1, content1) = run_example false first table content in
      let (exit2, table2, content2) = run_example true second table1 (some content1) in
      (exit1, exit2, table2, content2)

  -- A descriptor that is not in the table.
  not_inherited :
      (fd : ℕ) (table : List Descriptor)
      → is_open fd table ≡ false
      → is_open fd (after_exec table) ≡ false
  not_inherited fd [] h = refl
  not_inherited fd (d ∷ table) h = elim (Bool-cases (d.number == fd)) [
    | inl same ↦ absurd (let x : true ≡ false = sym (rw same refl) ∙ h in cc)
    | inr other ↦
        let rest : is_open fd table ≡ false = sym (rw other refl) ∙ h in
        elim (Bool-cases d.close_on_exec) [
          | inl shut ↦ rw shut (not_inherited fd table rest)
          | inr open_still ↦ rw (open_still, other) (not_inherited fd table rest)
        ]
  ]

  kept :
      (fd : ℕ) (table : List Descriptor) (content : Option (List ℕ))
      → stoi (to_string fd) ≡ some fd
      → run_example false fd table content ≡ (success, table, content_of content ++ message)
  unfolding run_example writer write_and_close
  kept fd table content parse =
      rw (parse, eqb_refl fd)
        (ap (λ c. (success, table, c))
          (write_at_end message (record { content = content_of content; offset = 0; append = true })
            refl).0)

  closed :
      (fd : ℕ) (table : List Descriptor) (content : Option (List ℕ))
      → stoi (to_string fd) ≡ some fd
      → is_open fd table ≡ false
      → run_example true fd table content ≡ (failure, table, content_of content)
  unfolding run_example writer write_and_close
  closed fd table content parse fresh = rw (parse, not_inherited fd table fresh, eqb_refl fd) refl

-- Whatever was in example.txt, with any other descriptors, and if `open` gives a free one: the program
-- that inherits the descriptor appends its message, the one that does not inherit it fails and writes
-- nothing, and the parent has the descriptors that it had before.
pub message_once :
    {Argument : Type 0} (writer_name : Argument) (to_string : ℕ → Argument)
    (stoi : Argument → Option ℕ) (first second : ℕ) (table : List Descriptor)
    (content : Option (List ℕ))
    → ((n : ℕ) → stoi (to_string n) ≡ some n)
    → is_open second table ≡ false
    → main writer_name to_string stoi first second table content
      ≡ (success, failure, table, content_of content ++ message)
unfolding main
message_once writer_name to_string stoi first second table content parse free =
    rw
      (
        kept writer_name to_string stoi first table content (parse first),
        closed writer_name to_string stoi second table (some (content_of content ++ message))
            (parse second) free,
      )
      refl
