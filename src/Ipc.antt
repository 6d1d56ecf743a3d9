-- ===== src/Ipc.antt =====
-- ipc: processes that exchange messages.
pub mod Signals
pub mod Text
pub mod ShmAtomics
pub mod Exchange
pub mod MessageQueue
pub mod Pipe
