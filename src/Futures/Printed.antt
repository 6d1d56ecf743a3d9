-- ===== src/Futures/Printed.antt =====
-- What the three programs print, and that they return.
use hse_multithreading_examp.Prelude.{
  ◌+◌, ◌*◌, ◌<◌, ◌^◌, ◌≡◌, ◌≢◌, ◌⊎◌, inl, inr, refl, sym, ap, ◌∙◌, some, List, [], ◌∷◌, ◌++◌, arith,
  lt→ltb, Bool-cases,
}
use hse_multithreading_examp.Futures.{
  ℤ, pos, negsuc, double, is_228, invalid_value, no_state, Result, value, exception,
  worker_function, Output, result_label, another_label, number, caught, pending, ready,
  no_shared_state, running, worker_ended, first_line, first_get, got, second_get, joining, returned,
  State, state, Program, async, future, shared_future, Step, set_result, print_label, get_value,
  get_throws, leave, try_again, get_again_throws, join, Reach, here, later,
}

-- What the second line of shared_future.cpp adds.
abbrev pub second_line : Program → List Output
second_line async = []
second_line future = []
second_line shared_future = another_label ∷ caught no_state ∷ []

-- What RunWorker prints of a result.
abbrev pub outputs : Program → Result → List Output
outputs program (exception e) = result_label ∷ caught e ∷ []
outputs program (value v) = result_label ∷ number v ∷ second_line program

-- The sum of an int with itself.
abbrev pub twice : ℤ → ℤ
twice (pos n) = pos (n + n)
twice (negsuc n) = negsuc (n + n + 1)

twice-double : (n : ℤ) → double n ≡ twice n
twice-double (pos n) = ap pos (omega arith)
twice-double (negsuc n) = ap negsuc (omega arith)

-- An int whose double is one.
abbrev pub HasDouble : ℤ → Type 0
HasDouble (pos n) = n < 2 ^ 30
HasDouble (negsuc n) = n < 2 ^ 30

-- What the programs should print: for 228 the exception, for another argument its double.
abbrev pub IsPrinted : Program → ℤ → List Output → Type 0
IsPrinted program n out =
    ((n ≡ pos 228) × (out ≡ result_label ∷ caught invalid_value ∷ []))
    ⊎ ((n ≢ pos 228) × (out ≡ result_label ∷ number (twice n) ∷ second_line program))

worker_228 : worker_function (pos 228) ≡ some (exception invalid_value)
unfolding worker_function
worker_228 = refl

worker_other : (n : ℤ) → n ≢ pos 228 → HasDouble n → worker_function n ≡ some (value (double n))
unfolding worker_function
worker_other (pos n) ne small = elim (Bool-cases (is_228 (pos n))) [
  | inl e ↦ absurd (ne (ap pos (ground arith)))
  | inr e ↦ rw (e, lt→ltb (n * 2) (2 ^ 31) (omega arith))
]
worker_other (negsuc n) ne small = rw (lt→ltb (n * 2 + 1) (2 ^ 31) (omega arith))

is_special : (m : ℤ) → (m ≡ pos 228) ⊎ (m ≢ pos 228)
is_special (pos m) = elim (Bool-cases (is_228 (pos m))) [
  | inl same ↦ inl (ap pos (ground arith))
  | inr differs ↦ inr (λ q. absurd (let z = ap is_228 q in cc))
]
is_special (negsuc m) = inr (λ q. cc)

module _ (program : Program) (n : ℤ) where
  -- The value that was got, and what is printed of it so far.
  abbrev Got : List Output → Type 0
  Got out = (v : ℤ) × (worker_function n ≡ some (value v)) × (out ≡ result_label ∷ number v ∷ [])

  abbrev Done : List Output → Type 0
  Done out = (r : Result) × (worker_function n ≡ some r) × (out ≡ outputs program r)

  abbrev Inv : State → Type 0
  Inv (state pending running first_line out) = out ≡ []
  Inv (state pending running first_get out) = out ≡ result_label ∷ []
  Inv (state (ready r) worker_ended first_line out) = (out ≡ []) × (worker_function n ≡ some r)
  Inv (state (ready r) worker_ended first_get out) =
      (out ≡ result_label ∷ []) × (worker_function n ≡ some r)
  Inv (state no_shared_state worker_ended got out) = Got out
  Inv (state no_shared_state worker_ended second_get out) =
      (program ≡ shared_future)
      × ((v : ℤ) × (worker_function n ≡ some (value v))
          × (out ≡ result_label ∷ number v ∷ another_label ∷ []))
  Inv (state no_shared_state worker_ended joining out) = Done out
  Inv (state no_shared_state worker_ended returned out) = Done out
  Inv _ = ⊥

  once :
      (q : Program) (v : ℤ) → q ≢ shared_future → result_label ∷ number v ∷ [] ≡ outputs q (value v)
  once async v ne = refl
  once future v ne = refl
  once shared_future v ne = absurd (ne refl)

  keep : {s t : State} → Step program n s t → Inv s → Inv t
  keep (set_result {c = first_line} w) i = (i, w)
  keep (set_result {c = first_get} w) i = (i, w)
  keep (print_label {f = pending} {w = running}) i = ap (λ l. l ++ (result_label ∷ [])) i
  keep (print_label {f = ready r} {w = worker_ended}) (e, w) =
      (ap (λ l. l ++ (result_label ∷ [])) e, w)
  keep (get_value {w = worker_ended} {v = v}) (e, w) = (v, w, ap (λ l. l ++ (number v ∷ [])) e)
  keep (get_throws {w = worker_ended} {e = x}) (e, w) =
      (exception x, w, ap (λ l. l ++ (caught x ∷ [])) e)
  keep (leave {w = worker_ended} ne) (v, w, e) = (value v, w, e ∙ once program v ne)
  keep (try_again {w = worker_ended} p) (v, w, e) =
      (p, (v, w, ap (λ l. l ++ (another_label ∷ [])) e))
  keep (get_again_throws {w = worker_ended}) (p, (v, w, e)) =
      (value v, w, ap (λ l. l ++ (caught no_state ∷ [])) e ∙ ap (λ q. outputs q (value v)) (sym p))
  keep join i = i
  keep (print_label {f = no_shared_state} {w = running}) i = absurd i
  keep (print_label {f = no_shared_state} {w = worker_ended}) i = absurd i
  keep _ i = absurd i

  reached : {s : State} → Reach program n s → Inv s
  reached here = refl
  reached (later r st) = keep st (reached r)

  -- What was printed of the worker's result is what should be printed.
  right : (out : List Output) → HasDouble n → Done out → IsPrinted program n out
  right out small (r, w, e) = elim (is_special n) [
    | inl special ↦ inl (
      special,
      e ∙ ap (outputs program) (got_some (sym w ∙ ap worker_function special ∙ worker_228)),
    )
    | inr other ↦ inr (
      other,
      e
          ∙ ap (outputs program) (got_some (sym w ∙ worker_other n other small))
          ∙ ap (λ v. result_label ∷ number v ∷ second_line program) (twice-double n),
    )
  ]
    where
      got_some : {r s : Result} → some r ≡ some s → r ≡ s
      got_some q = cc

  is_shared : (q : Program) → (q ≡ shared_future) ⊎ (q ≢ shared_future)
  is_shared async = inr (λ e. cc)
  is_shared future = inr (λ e. cc)
  is_shared shared_future = inl refl

  abbrev pub HasReturned : State → Type 0
  HasReturned (state f w returned out) = IsPrinted program n out
  HasReturned _ = ⊥

  worker_returns : HasDouble n → (r : Result) × (worker_function n ≡ some r)
  worker_returns small = elim (is_special n) [
    | inl special ↦ (exception invalid_value, ap worker_function special ∙ worker_228)
    | inr other ↦ (value (double n), worker_other n other small)
  ]

  first :
      (r : Result) (out : List Output)
      → (t : State) × Step program n (state (ready r) worker_ended first_get out) t
  first (value v) out = (_, get_value)
  first (exception e) out = (_, get_throws)

  moves : (s : State) → HasDouble n → Inv s → HasReturned s ⊎ ((t : State) × Step program n s t)
  moves (state pending running first_line out) small i = inr (_, print_label)
  moves (state pending running first_get out) small i = inr (_, set_result (worker_returns small).1)
  moves (state (ready r) worker_ended first_line out) small i = inr (_, print_label)
  moves (state (ready r) worker_ended first_get out) small i = inr (first r out)
  moves (state no_shared_state worker_ended got out) small i = elim (is_shared program) [
    | inl e ↦ inr (_, try_again e)
    | inr ne ↦ inr (_, leave ne)
  ]
  moves (state no_shared_state worker_ended second_get out) small i = inr (_, get_again_throws)
  moves (state no_shared_state worker_ended joining out) small i = inr (_, join)
  moves (state no_shared_state worker_ended returned out) small i = inl (right out small i)
  moves _ small i = absurd i

-- For every argument whose double is an int, in each of the three programs and under any interleaving with
-- the worker, RunWorker can go on or has returned, and it has printed "Result: " and then, for 228, the
-- worker's exception, and for another argument its double; shared_future.cpp starts a second line
-- behind the double and gets an exception for it, since `get` leaves a std::future without a shared
-- state.
pub run_worker_prints :
    (program : Program) (n : ℤ)
    → HasDouble n
    → {s : State} → Reach program n s
    → HasReturned program n s ⊎ ((t : State) × Step program n s t)
run_worker_prints program n small {s} r = moves program n s small (reached program n r)
