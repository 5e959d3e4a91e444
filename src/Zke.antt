-- ===== src/Zke.antt =====
-- pkg/zke: Kubernetes clusters that singlecloud creates, updates and destroys.
pub mod Types
pub mod Config
pub mod Validation
pub mod Fsm
pub mod World
pub mod Db
pub mod Lifecycle
pub mod Manager
pub mod Invariant
pub mod Runs
pub mod Checks
pub mod Settled
pub mod Samples
pub mod Tests
