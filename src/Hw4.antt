-- ===== src/Hw4.antt =====
-- hw4: the shared-memory message queue and the programs around it.
pub mod Protocol
pub mod Mailbox
pub mod Queue
pub mod Os
pub mod Shm
pub mod Memory
pub mod Consumer
pub mod Producer
pub mod EndToEnd
pub mod Concurrent
mod Tests
mod SystemTests
