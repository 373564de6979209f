-- ===== src/Scheduler.antt =====
-- crates/orion-scheduler: continuous batching.
pub mod Queue
pub mod Output
pub mod State
pub mod Pass
pub mod Prefill
pub mod Step
pub mod Lifecycle
pub mod History
pub mod Fake
pub mod Tests
