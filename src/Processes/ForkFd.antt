-- ===== src/Processes/ForkFd.antt =====
-- processes_and_threads/fork/fork_fd.cpp: two processes that write to a file through one description.
use hse_multithreading_examp.Prelude.{
  ℕ, ◌≡◌, ◌⊎◌, inl, inr, refl, sym, ap, ◌∙◌, false, List, [], ◌++◌, length, append-nil,
}
use hse_multithreading_examp.Processes.Files.{Description, write, write_at_end}

-- A process behind `fork`: before its `write`, before its `close`, ended.
pub data Stage : Type 0 where
  writing closing ended : Stage

-- The file, the parent and the child.
pub data State : Type 0 where
  state : (file : Description) (parent child : Stage) → State

-- What the parent writes and what the child writes.
module _ (parent_message child_message : List ℕ) where
  pub data Step : State → State → Type 0 where
    parent_writes :
        {d : Description} {c : Stage}
        → Step (state d writing c) (state (write parent_message d) closing c)
    child_writes :
        {d : Description} {p : Stage}
        → Step (state d p writing) (state (write child_message d) p closing)
    parent_closes : {d : Description} {c : Stage} → Step (state d closing c) (state d ended c)
    child_closes : {d : Description} {p : Stage} → Step (state d p closing) (state d p ended)

  -- `open` with O_CREAT and O_TRUNC, then `fork`.
  abbrev pub start : State
  start = state (record { content = []; offset = 0; append = false }) writing writing

  pub data Reach : State → Type 0 where
    here : Reach start
    later : {s t : State} → Reach s → Step s t → Reach t

  -- What a process that has written has put into the file.
  abbrev written : List ℕ → Stage → List ℕ
  written message writing = []
  written message closing = message
  written message ended = message

  abbrev Inv : State → Type 0
  Inv (state d p c) =
      (d.append ≡ false)
      × (d.offset ≡ length d.content)
      × ((d.content ≡ written parent_message p ++ written child_message c)
          ⊎ (d.content ≡ written child_message c ++ written parent_message p))

  wrote :
      (message : List ℕ) (d : Description)
      → d.append ≡ false
      → d.offset ≡ length d.content
      → ((write message d).append ≡ false)
        × ((write message d).offset ≡ length (write message d).content)
        × ((write message d).content ≡ d.content ++ message)
  unfolding write
  wrote message d a o =
      let (c, l) = write_at_end message d (rw a o) in (a, l ∙ ap length (sym c), c)

  -- Whoever writes finds what the other has written, whichever way it was put together.
  other_only : (l other : List ℕ) → (l ≡ [] ++ other) ⊎ (l ≡ other ++ []) → l ≡ other
  other_only l other (inl e) = e
  other_only l other (inr e) = e ∙ append-nil other

  keep : {s t : State} → Step s t → Inv s → Inv t
  keep (parent_writes {d = d} {c = c}) (a, o, w) =
      let (a', o', w') = wrote parent_message d a o in
      let e = other_only d.content (written child_message c) w in
      (a', o', inr (w' ∙ ap (λ l. l ++ parent_message) e))
  keep (child_writes {d = d} {p = p}) (a, o, w) =
      let (a', o', w') = wrote child_message d a o in
      let e =
        other_only d.content (written parent_message p)
          (elim w [ inl x ↦ inr x | inr x ↦ inl x ]) in
      (a', o', inl (w' ∙ ap (λ l. l ++ child_message) e))
  keep parent_closes i = i
  keep child_closes i = i

  reached : {s : State} → Reach s → Inv s
  reached here = (refl, refl, inl refl)
  reached (later r st) = keep st (reached r)

-- Whichever process writes first, when both have ended the file holds both messages, one behind the other:
-- they share one offset, and neither overwrites the other.
pub both_written :
    (parent_message child_message : List ℕ) {d : Description}
    → Reach parent_message child_message (state d ended ended)
    → (d.content ≡ parent_message ++ child_message) ⊎ (d.content ≡ child_message ++ parent_message)
both_written parent_message child_message r = (reached parent_message child_message r).2
