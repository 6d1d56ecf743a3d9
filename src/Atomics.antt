-- ===== src/Atomics.antt =====
-- synchronization_primitives/atomics: threads over one atomic int, one access a step.
pub mod Cas
pub mod Sum
pub mod Race
pub mod LostUpdates
