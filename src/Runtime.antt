-- ===== src/Runtime.antt =====
-- crates/orion-runtime: the engine over the scheduler and the cache.
pub mod Batch
pub mod Engine
pub mod Sampling
pub mod Tests
