-- ===== src/Locks/ProtectedData/Tests.antt =====
-- The theorems on ProtectedData at the values of `main`.
use hse_multithreading_examp.Prelude.{◌≡◌, false, none, some, [], ◌∷◌}
use hse_multithreading_examp.Locks.ProtectedData.{ProtectedData, updates, blocked_after_42}

abbrev first_data : ProtectedData
first_data = record { locked = false; value = 0 }

blocked_after_42_example : updates (some first_data) (12 ∷ 42 ∷ 34 ∷ 25 ∷ []) ≡ none
blocked_after_42_example = blocked_after_42 (some first_data) (12 ∷ []) 34 25 []
