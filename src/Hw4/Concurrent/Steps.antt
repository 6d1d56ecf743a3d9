-- ===== src/Hw4/Concurrent/Steps.antt =====
-- What each step of a push or a pop does to its slot, and what the other processes keep.
use hse_multithreading_examp.Hw4.Concurrent.{length, Pc, header_of, payload_of}
use mathlib.Core.Path.{subst}
use hse_multithreading_examp.Prelude.{
  ℕ, suc, ◌≤◌, ◌≡◌, ◌≢◌, ◌⊎◌, inl, inr, refl, sym, ap, ◌∙◌, true, false, List, ◌==◌, take, arith,
  update, update_ne, take-memcpy, guarded_memcpy, Bool-cases,
}
use hse_multithreading_examp.Hw4.Protocol.{
  MessageType, MessageHeader, MessageSlot, SharedQueueLayout,
}
use hse_multithreading_examp.Hw4.Queue.{write_slot, claim_slot}
use hse_multithreading_examp.Hw4.Concurrent.Slots.{
  uses, is_consumer, frees, IsCall, IsWhole, Knows, state_used, still-Knows,
}

module _ (Sent : MessageType → List ℕ → ℕ → Type 0) where
  -- One step of a process; `q` is any other process.
  pub record Effect (m m' : SharedQueueLayout) (p p' : Pc) : Type 0 where
    pub own : Knows Sent m' p'
    pub others :
        (q : Pc)
        → Knows Sent m q
        → (uses q ≢ 0 → uses q ≢ uses p)
        → (is_consumer p ≡ true → is_consumer q ≡ false)
        → Knows Sent m' q
    pub apart :
        (q : Pc)
        → Knows Sent m q
        → (uses q ≢ 0 → uses q ≢ uses p)
        → (is_consumer p ≡ true → is_consumer q ≡ false)
        → uses q ≢ 0
        → uses q ≢ uses p'
    pub role : is_consumer p' ≡ is_consumer p
    pub whole :
        (s : ℕ)
        → (m'.slots s).state ≡ 2
        → frees p' ≢ suc s
        → ((frees p ≢ suc s) × (m'.slots s ≡ m.slots s)) ⊎ IsWhole Sent (m'.slots s)

  -- A step that writes to no slot and takes none.
  pub quiet :
      (m m' : SharedQueueLayout) (p p' : Pc)
      → ((s : ℕ) → m'.slots s ≡ m.slots s)
      → Knows Sent m' p'
      → (uses p' ≡ 0) ⊎ (uses p' ≡ uses p)
      → is_consumer p' ≡ is_consumer p
      → frees p ≡ 0
      → Effect m m' p p'
  quiet m m' p p' same k u r f = record {
    own = k;
    others = λ q kq a c. still-Knows Sent m m' q kq (λ s e. same s);
    apart = λ q kq a c ne. elim u [ inl z ↦ λ e. ne (e ∙ z) | inr z ↦ λ e. a ne (e ∙ z) ];
    role = r;
    whole = λ s e nf. inl ((λ g. absurd (omega (arith, f, g))), same s);
  }

  frees_ne : (p : Pc) (s x : ℕ) → (frees p ≡ 0) ⊎ (frees p ≡ suc s) → s ≢ x → frees p ≢ suc x
  frees_ne p s x (inl z) ne g = absurd (omega arith)
  frees_ne p s x (inr z) ne g = absurd (omega arith)

  -- A step that writes to one slot, which no other process uses.
  pub on_slot :
      (m : SharedQueueLayout) (p p' : Pc) (s : ℕ) (v : MessageSlot)
      → Knows Sent (write_slot m s v) p'
      → ((q : Pc)
          → Knows Sent m q
          → (uses q ≢ 0 → uses q ≢ uses p)
          → (is_consumer p ≡ true → is_consumer q ≡ false)
          → uses q ≢ suc s)
      → (uses p' ≡ 0) ⊎ (uses p' ≡ suc s)
      → is_consumer p' ≡ is_consumer p
      → (frees p ≡ 0) ⊎ (frees p ≡ suc s)
      → (v.state ≡ 2 → frees p' ≢ suc s → IsWhole Sent v)
      → Effect m (write_slot m s v) p p'
  on_slot m p p' s v k alone u r f w = record {
    own = k;
    others = λ q kq a c.
        still-Knows Sent m (write_slot m s v) q kq
          (λ x e. update_ne m.slots s v x (λ g. alone q kq a c (e ∙ ap suc (sym g))));
    apart = λ q kq a c ne. elim u [ inl z ↦ λ e. ne (e ∙ z) | inr z ↦ λ e. alone q kq a c (e ∙ z) ];
    role = r;
    whole = λ x e nf. elim (Bool-cases (s == x)) [
      | inl same ↦
          let at : update m.slots s v x ≡ v = rw same refl in
          let sx : s ≡ x = (ground arith) in
          inr (
            subst (IsWhole Sent) (sym at)
              (w (sym (ap (λ (t : MessageSlot). t.state) at) ∙ e) (λ g. nf (g ∙ ap suc sx))))
      | inr other ↦
          let ne : s ≢ x = (ground arith) in
          inl ((λ g. frees_ne p s x f ne g), update_ne m.slots s v x ne)
    ];
  }

  pub alone_of_uses :
      (p : Pc) (s : ℕ) (q : Pc) → uses p ≡ suc s → (uses q ≢ 0 → uses q ≢ uses p) → uses q ≢ suc s
  alone_of_uses p s q u a e = a (omega arith) (omega arith)

  -- A slot that is empty has no user.
  pub alone_of_empty :
      (m : SharedQueueLayout) (s : ℕ) (q : Pc)
      → (m.slots s).state ≡ 0
      → Knows Sent m q
      → uses q ≢ suc s
  alone_of_empty m s q z k e = elim (Bool-cases (is_consumer q)) [
    | inl c ↦ let h = state_used Sent m q s k e in absurd (ground arith)
    | inr c ↦ let h = state_used Sent m q s k e in absurd (ground arith)
  ]

  -- One that is ready has none but a consumer.
  pub alone_of_ready :
      (m : SharedQueueLayout) (s : ℕ) (q : Pc)
      → (m.slots s).state ≡ 2
      → Knows Sent m q
      → is_consumer q ≡ false
      → uses q ≢ suc s
  alone_of_ready m s q z k c e = let h = state_used Sent m q s k e in absurd (ground arith)

  pub claim_true :
      (m : SharedQueueLayout) (s : ℕ)
      → (claim_slot m s).0 ≡ true
      → ((m.slots s).state ≡ 0)
        × ((claim_slot m s).1 ≡ write_slot m s (record (m.slots s) { state = 1 }))
  unfolding claim_slot
  claim_true m s h = elim (Bool-cases ((m.slots s).state == 0)) [
    | inl e ↦ (ground arith, rw e refl)
    | inr e ↦ absurd (ground arith)
  ]

  pub claim_false :
      (m : SharedQueueLayout) (s : ℕ) → (claim_slot m s).0 ≡ false → (claim_slot m s).1 ≡ m
  unfolding claim_slot
  claim_false m s h = elim (Bool-cases ((m.slots s).state == 0)) [
    | inl e ↦ absurd (ground arith)
    | inr e ↦ rw e refl
  ]

  take-payload_of :
      (old bytes : List ℕ) (n : ℕ)
      → n ≤ length bytes
      → take n (payload_of old bytes n) ≡ take n bytes
  unfolding payload_of
  take-payload_of old bytes n h = rw (guarded_memcpy old bytes n) (take-memcpy old bytes n h)

  pub payload_of-IsWhole :
      (slot : MessageSlot) (t : MessageType) (b : List ℕ) (n : ℕ)
      → IsCall Sent t b n
      → slot.header ≡ header_of t n
      → IsWhole Sent (record slot { payload = payload_of slot.payload b n })
  payload_of-IsWhole slot t b n (sent, small, enough) e =
      let k : slot.header.length ≡ n = ap (λ (h : MessageHeader). h.length) e ∙ omega arith in
      (
        t,
        b,
        n,
        sent,
        e,
        ap (λ x. take x (payload_of slot.payload b n)) k ∙ take-payload_of slot.payload b n enough,
      )
