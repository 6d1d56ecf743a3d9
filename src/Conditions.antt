-- ===== src/Conditions.antt =====
-- synchronization_primitives/condition_variable.
pub mod CvLock
pub mod Worker
mod Tests
