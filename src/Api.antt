-- ===== src/Api.antt =====
-- crates/orion-api: requests and errors, between HTTP and the engine.
pub mod Types
pub mod Params
pub mod Tests
