-- ===== src/Distributed.antt =====
-- crates/orion-distributed: ranks, shards and the layout of a model over ranks.
pub mod Layout
pub mod Partition
pub mod Aligned
pub mod Tests
