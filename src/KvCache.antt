-- ===== src/KvCache.antt =====
-- crates/orion-kv-cache: the paged KV cache.
pub mod Block
pub mod Table
pub mod Prefix
pub mod Store
pub mod Allocation
pub mod Manager
pub mod Trait
pub mod Tests
