-- ===== src/Continuations/Tests.antt =====
-- Senders that are their own outcomes keep the laws.
use hse_multithreading_examp.Prelude.{refl, []}
use hse_multithreading_examp.Continuations.{value, Outcome, and_then, Execution, IsExecution}

abbrev direct : Execution
direct = record {
  Scheduler = Unit;
  Sender = Outcome;
  just = λ i. ([], value i);
  then_call = and_then;
  starts_on = λ scheduler s. s;
  sync_wait = λ s. s;
}

direct-IsExecution : IsExecution direct
direct-IsExecution = record {
  just_law = λ i. refl;
  then_law = λ s f. refl;
  starts_on_law = λ scheduler s. refl;
}
