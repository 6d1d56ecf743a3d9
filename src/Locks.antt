-- ===== src/Locks.antt =====
-- The locks of synchronization_primitives/mutex.
pub mod Spinlock
pub mod Latch
pub mod ProtectedData
pub mod Deadlock
pub mod Livelock
pub mod Mutex
pub mod DataManager
mod Tests
