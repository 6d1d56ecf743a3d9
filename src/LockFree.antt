-- ===== src/LockFree.antt =====
-- lock_free/spsc_stack.cpp.
pub mod ArrayStack
pub mod LinkedStack
pub mod LockedStack
mod Tests
