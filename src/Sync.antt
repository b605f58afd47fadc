-- ===== src/Sync.antt =====
-- packages/common/src: the semaphore, the operation queue and the lifecycle that the other packages
-- order their work with.
pub mod Semaphore
pub mod Operations
pub mod Lifecycle
mod Tests
