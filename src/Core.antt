-- ===== src/Core.antt =====
-- crates/orion-core: errors, identifiers, sampling parameters, sequences and configuration.
pub mod Error
pub mod Float32
pub mod Forward
pub mod Model
pub mod Sampling
pub mod Sequence
pub mod Config
pub mod Batch
pub mod Traits
pub mod Tests
