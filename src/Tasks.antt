-- ===== src/Tasks.antt =====
-- The programs around the exercises of tasks.
pub mod Channel
