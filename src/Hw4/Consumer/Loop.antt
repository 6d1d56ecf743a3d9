-- ===== src/Hw4/Consumer/Loop.antt =====
-- The loop of hw4/consumer_hw4.cpp on a queue that no producer changes meanwhile.
use hse_multithreading_examp.Prelude.{
  ℕ, zero, suc, ◌+◌, ◌<◌, ◌≡◌, refl, sym, ◌∙◌, ap, Bool, true, false, some, List, [], ◌∷◌, ◌++◌,
  map, append_assoc, append-nil, ◌%◌, ◌==◌, if◌then◌else◌, arith, length, take, drop, memcpy,
  Bool-cases, inl, inr, ltb_ge, lt→ltb,
}
use hse_multithreading_examp.Hw4.Protocol.{max_payload_size, size_mod, text, type_code}
use hse_multithreading_examp.Hw4.Mailbox.{Message}
use hse_multithreading_examp.Hw4.Queue.Contents.{HasMessages, contents, message_of, window-zero}
use hse_multithreading_examp.Hw4.Queue.Pop.{
  head_slot, head-empty, head-IsReady, advanced, advanced-HasMessages, advanced-contents, pop_fits,
  pop_not_ready,
}
use hse_multithreading_examp.Hw4.Consumer.{
  c_string, has_zero, Line, received, skipped, Reading, read_all,
}

abbrev pub is_text : Message → Bool
is_text m = m.type == type_code text

-- The line that a message should lead to.
abbrev pub line_of : Message → Line
line_of m = if is_text m then received (c_string m.bytes) else skipped

abbrev pub count_text : List Message → ℕ
count_text [] = 0
count_text (m ∷ box) = if is_text m then suc (count_text box) else count_text box

abbrev pub count_other : List Message → ℕ
count_other [] = 0
count_other (m ∷ box) = if is_text m then count_other box else suc (count_other box)

-- The bytes hold a zero, so that they end a string.
abbrev pub HasZero : List ℕ → Type 0
HasZero [] = ⊥
HasZero (zero ∷ bytes) = Unit
HasZero (suc b ∷ bytes) = HasZero bytes

abbrev pub AllTerminated : List Message → Type 0
AllTerminated [] = Unit
AllTerminated (m ∷ box) = (is_text m ≡ true → HasZero m.bytes) × AllTerminated box

c_string-append : (bytes rest : List ℕ) → HasZero bytes → c_string (bytes ++ rest) ≡ c_string bytes
c_string-append [] rest h = absurd h
c_string-append (zero ∷ bytes) rest h = refl
c_string-append (suc b ∷ bytes) rest h = ap (λ t. suc b ∷ t) (c_string-append bytes rest h)

pub has_zero-append : (bytes rest : List ℕ) → HasZero bytes → has_zero (bytes ++ rest) ≡ true
has_zero-append [] rest h = absurd h
has_zero-append (zero ∷ bytes) rest h = refl
has_zero-append (suc b ∷ bytes) rest h = has_zero-append bytes rest h

-- What the loop has done when it stops, started at `s` with the messages of `box` in the queue.
pub record HasRead (s : Reading) (box : List Message) (s' : Reading) : Type 0 where
  pub emptied : HasMessages s'.queue 0
  pub read_at : s'.queue.read_index ≡ s.queue.read_index + length box
  pub write_same : s'.queue.write_index ≡ s.queue.write_index
  pub text_counted : s'.received_text_count ≡ s.received_text_count + count_text box
  pub other_counted : s'.skipped_count ≡ s.skipped_count + count_other box
  pub printed : s'.lines ≡ s.lines ++ map line_of box

-- A round that finds no message.
read_none : (fuel : ℕ) (s : Reading) → HasMessages s.queue 0 → read_all (suc fuel) s ≡ some s
unfolding read_all
read_none fuel s shape = rw (
  pop_not_ready s.queue text s.buffer max_payload_size s.header (omega (arith, head-empty shape)),
  ltb_ge s.queue.read_index s.queue.read_index (omega arith),
)

abbrev after_text : Reading → Reading
after_text s = record s {
  queue = advanced s.queue;
  buffer = memcpy s.buffer (head_slot s.queue).payload (head_slot s.queue).header.length;
  header = (head_slot s.queue).header;
  received_text_count = s.received_text_count + 1;
  lines =
      s.lines
      ++ (received (
            c_string
              (memcpy s.buffer (head_slot s.queue).payload (head_slot s.queue).header.length))
          ∷ []);
}

read_text :
    (fuel : ℕ) {n : ℕ} (s : Reading)
    → HasMessages s.queue (suc n)
    → is_text (message_of (head_slot s.queue)) ≡ true
    → HasZero (message_of (head_slot s.queue)).bytes
    → read_all (suc fuel) s ≡ read_all fuel (after_text s)
unfolding read_all
read_text fuel s shape is zero_at = rw (
  pop_fits s.queue text s.buffer max_payload_size s.header (head-IsReady shape).state_ready
      (head-IsReady shape).fits (head-IsReady shape).fits,
  is,
  has_zero-append (message_of (head_slot s.queue)).bytes
      (drop (head_slot s.queue).header.length s.buffer) zero_at,
)

abbrev after_other : Reading → Reading
after_other s = record s {
  queue = advanced s.queue;
  skipped_count = s.skipped_count + 1;
  lines = s.lines ++ (skipped ∷ []);
}

read_other :
    (fuel : ℕ) {n : ℕ} (s : Reading)
    → HasMessages s.queue (suc n)
    → is_text (message_of (head_slot s.queue)) ≡ false
    → s.queue.read_index + 1 < size_mod
    → read_all (suc fuel) s ≡ read_all fuel (after_other s)
unfolding read_all
read_other fuel s shape is low = rw (
  pop_fits s.queue text s.buffer max_payload_size s.header (head-IsReady shape).state_ready
      (head-IsReady shape).fits (head-IsReady shape).fits,
  is,
  lt→ltb s.queue.read_index ((s.queue.read_index + 1) % size_mod) (omega arith),
)

-- The rounds that are left after a message of the expected type.
text_then :
    (s : Reading) (box : List Message) (s' : Reading)
    → is_text (message_of (head_slot s.queue)) ≡ true
    → HasZero (message_of (head_slot s.queue)).bytes
    → s.queue.read_index + 1 < size_mod
    → HasRead (after_text s) box s'
    → HasRead s (message_of (head_slot s.queue) ∷ box) s'
text_then s box s' is zero_at low r = record {
  emptied = r.emptied;
  read_at = omega (arith, r.read_at);
  write_same = r.write_same;
  text_counted = rw is (omega (arith, r.text_counted));
  other_counted = rw is r.other_counted;
  printed = rw is (
      r.printed
      ∙ (append_assoc s.lines (received (c_string (memcpy s.buffer payload size)) ∷ [])
            (map line_of box)
          ∙ ap (λ line. s.lines ++ (received line ∷ map line_of box))
              (c_string-append (take size payload) (drop size s.buffer) zero_at)));
}
  where
    payload : List ℕ
    payload = (head_slot s.queue).payload

    size : ℕ
    size = (head_slot s.queue).header.length

other_then :
    (s : Reading) (box : List Message) (s' : Reading)
    → is_text (message_of (head_slot s.queue)) ≡ false
    → s.queue.read_index + 1 < size_mod
    → HasRead (after_other s) box s'
    → HasRead s (message_of (head_slot s.queue) ∷ box) s'
other_then s box s' is low r = record {
  emptied = r.emptied;
  read_at = omega (arith, r.read_at);
  write_same = r.write_same;
  text_counted = rw is r.text_counted;
  other_counted = rw is (omega (arith, r.other_counted));
  printed = rw is (r.printed ∙ append_assoc s.lines (skipped ∷ []) (map line_of box));
}

-- While no producer interferes, on a queue in good shape whose TEXT messages all hold a zero byte, the
-- consumer's loop ends and has read every message, if the index does not pass 2^64: it counts the
-- messages of type TEXT and the others, prints in order the text of each TEXT message and a note for
-- each other message, and leaves the queue empty with `read_index` moved past the messages. One round
-- more than messages is enough.
pub read_all-HasRead :
    (n fuel : ℕ) (s : Reading)
    → HasMessages s.queue n
    → AllTerminated (contents s.queue n)
    → s.queue.read_index + n < size_mod
    → n < fuel
    → (s' : Reading) × (read_all fuel s ≡ some s') × HasRead s (contents s.queue n) s'
read_all-HasRead n zero s shape strings low enough = absurd (omega arith)
read_all-HasRead zero (suc fuel) s shape strings low enough = (
  s,
  read_none fuel s shape,
  rw (window-zero s.queue.slots s.queue.read_index) (record {
    emptied = shape;
    read_at = omega arith;
    write_same = refl;
    text_counted = omega arith;
    other_counted = omega arith;
    printed = sym (append-nil s.lines);
  }),
)
read_all-HasRead (suc n) (suc fuel) s shape strings low enough =
    rw (advanced-contents shape) (elim (Bool-cases (is_text (message_of (head_slot s.queue)))) [
      | inl is ↦
          let (s', runs, r) =
            read_all-HasRead n fuel (after_text s) (advanced-HasMessages shape) strings'.1
              (omega arith) (omega arith) in
          (
            s',
            read_text fuel s shape is (strings'.0 is) ∙ runs,
            text_then s _ s' is (strings'.0 is) (omega arith) r,
          )
      | inr is ↦
          let (s', runs, r) =
            read_all-HasRead n fuel (after_other s) (advanced-HasMessages shape) strings'.1
              (omega arith) (omega arith) in
          (
            s',
            read_other fuel s shape is (omega arith) ∙ runs,
            other_then s _ s' is (omega arith) r,
          )
    ])
  where
    strings' : AllTerminated (message_of (head_slot s.queue) ∷ contents (advanced s.queue) n)
    strings' = rw (advanced-contents shape) at strings
