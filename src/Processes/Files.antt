-- ===== src/Processes/Files.antt =====
-- An open file description on one file, as open(2), write(2) and fork(2) describe it: descriptors that
-- processes inherit share its offset.
use hse_multithreading_examp.Prelude.{
  ℕ, ◌+◌, ◌-◌, ◌≤◌, ◌≡◌, refl, ap, Bool, List, [], ◌∷◌, ◌++◌, length, take, drop, replicate,
  append-nil, length-append, sym, arith, if◌then◌else◌, zero, suc,
}

pub record Description : Type 0 where
  pub content : List ℕ
  pub offset : ℕ
  pub append : Bool

-- `write` at an offset; with O_APPEND that is the end of the file.
unfoldable pub write : List ℕ → Description → Description
write bytes d =
    let at = if d.append then length d.content else d.offset in
    record d {
      content =
          take at d.content
          ++ (replicate (at - length d.content) 0 ++ (bytes ++ drop (at + length bytes) d.content));
      offset = at + length bytes;
    }

take_whole : (l : List ℕ) → take (length l) l ≡ l
take_whole [] = refl
take_whole (x ∷ l) = ap (λ t. x ∷ t) (take_whole l)

drop_beyond : (n : ℕ) (l : List ℕ) → length l ≤ n → drop n l ≡ []
drop_beyond zero [] h = refl
drop_beyond zero (x ∷ l) h = absurd (omega arith)
drop_beyond (suc n) [] h = refl
drop_beyond (suc n) (x ∷ l) h = drop_beyond n l (omega arith)

-- At the end of the file `write` puts the bytes behind what is there.
pub write_at_end :
    (bytes : List ℕ) (d : Description)
    → (if d.append then length d.content else d.offset) ≡ length d.content
    → ((write bytes d).content ≡ d.content ++ bytes)
      × ((write bytes d).offset ≡ length (d.content ++ bytes))
unfolding write
write_at_end bytes d e =
    let z : length d.content - length d.content ≡ 0 = omega arith in
    rw
      (
        e,
        take_whole d.content,
        z,
        drop_beyond (length d.content + length bytes) d.content (omega arith),
        append-nil bytes,
      )
      (refl, sym (length-append d.content bytes))
