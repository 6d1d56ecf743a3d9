-- ===== src/Tasks/Channel.antt =====
-- tasks/synchronization_primitives: a channel as its programs see it, the contract that its tests ask
-- for, and the class as it stands, an exercise without bodies. CalcSum of benchmark.cpp over a channel,
-- one call of it, atomic access or join a step.
pub mod Sums
pub mod Effects
pub mod Benchmark
pub mod Exercise
mod Tests
use hse_multithreading_examp.Prelude.{
  ℕ, suc, ◌+◌, ◌-◌, ◌%◌, ◌^◌, ◌≤◌, ◌<◌, ◌≡◌, Bool, true, false, Option, none, some, List, [], ◌∷◌,
  ◌++◌, ltb, ◌==◌, if◌then◌else◌,
}
use hse_multithreading_examp.Threads.{System}

-- A channel of ints. `sends` and `receives` say how a call that returns may change it; a call that
-- waits makes no step.
pub record Channel : Type 1 where
  pub State : Type 0
  pub new : State
  pub sends : State → ℕ → State → Type 0
  pub receives : State → Option ℕ → State → Type 0
  pub close : State → State

-- A list with one more element, somewhere.
abbrev pub Inserts : ℕ → List ℕ → List ℕ → Type 0
Inserts v l l' = (before after : List ℕ) × (l ≡ before ++ after) × (l' ≡ before ++ (v ∷ after))

-- What test.cpp asks for: what is sent is what is received, once each, and Recv gives nothing only
-- when the channel was closed and is empty. `waiting` is what was sent and not yet received.
pub record IsChannel (channel : Channel) : Type 0 where
  pub waiting : channel.State → List ℕ
  pub closed : channel.State → Bool
  pub new_law : (waiting channel.new ≡ []) × (closed channel.new ≡ false)
  pub sends_law :
      {c c' : channel.State} {v : ℕ}
      → channel.sends c v c'
      → Inserts v (waiting c) (waiting c') × (closed c' ≡ closed c)
  pub receives_law :
      {c c' : channel.State} {v : ℕ}
      → channel.receives c (some v) c'
      → Inserts v (waiting c') (waiting c) × (closed c' ≡ closed c)
  pub nothing_law :
      {c c' : channel.State}
      → channel.receives c none c'
      → (closed c ≡ true) × (waiting c ≡ []) × (closed c' ≡ true) × (waiting c' ≡ [])
  pub close_law :
      (c : channel.State)
      → (waiting (channel.close c) ≡ waiting c) × (closed (channel.close c) ≡ true)

-- The channel, `sum`, how many of the sending and of the receiving threads have not ended, and whether
-- `sender_thread` has.
pub record Shared (Chan : Type 0) : Type 0 where
  pub channel : Chan
  pub sum : ℕ
  pub senders : ℕ
  pub receivers : ℕ
  pub sender_ended : Bool

-- A thread of Send with its `i`, the function Send itself, a receiver, and CalcSum.
pub data Pc : Type 0 where
  sending : (i : ℕ) → Pc
  joining_senders : Pc
  closing : Pc
  receiving : Pc
  adding : (value : ℕ) → Pc
  joining_receivers : Pc
  joining_sender : Pc
  returned : (sum : ℕ) → Pc
  ended : Pc

-- `count` is kCount and `step` is threads_count; `i` is an int and `sum` an int64_t.
module _ (channel : Channel) (count step : ℕ) where
  pub data Move (m : Shared channel.State) : Pc → Shared channel.State → Pc → Type 0 where
    send :
        {i : ℕ} {c : channel.State}
        → i < count
        → channel.sends m.channel i c
        → Move m (sending i) (record m { channel = c }) (sending ((i + step) % 2 ^ 32))
    all_sent : {i : ℕ} → count ≤ i → Move m (sending i) (record m { senders = m.senders - 1 }) ended
    join_senders : m.senders ≡ 0 → Move m joining_senders m closing
    close :
        Move m closing (record m { channel = channel.close m.channel; sender_ended = true }) ended
    receive :
        {v : ℕ} {c : channel.State}
        → channel.receives m.channel (some v) c
        → Move m receiving (record m { channel = c }) (adding v)
    no_more :
        {c : channel.State}
        → channel.receives m.channel none c
        → Move m receiving (record m { channel = c; receivers = m.receivers - 1 }) ended
    add : {v : ℕ} → Move m (adding v) (record m { sum = (m.sum + v) % 2 ^ 64 }) receiving
    join_receivers : m.receivers ≡ 0 → Move m joining_receivers m joining_sender
    join_sender : m.sender_ended ≡ true → Move m joining_sender m (returned m.sum)

-- The threads of CalcSum: the senders, the receivers, Send, and CalcSum.
abbrev pub start : (channel : Channel) → ℕ → ℕ → System (Shared channel.State) Pc
start channel senders receivers = record {
  mem = record {
    channel = channel.new;
    sum = 0;
    senders = senders;
    receivers = receivers;
    sender_ended = false;
  };
  pc = λ i.
      if ltb i senders
      then sending i
      else if ltb i (senders + receivers)
      then receiving
      else if i == senders + receivers
      then joining_senders
      else if i == suc (senders + receivers)
      then joining_receivers
      else ended;
}
