-- ===== src/Sync.antt =====
-- kernel/src/ipc: the counting semaphore and the recursive mutex that is built on it.
pub mod Semaphore
pub mod Permits
pub mod Mutex
pub mod Passes
pub mod Exclusion
pub mod Owner
pub mod Steps
pub mod Safety
mod Tests
