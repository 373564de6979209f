-- ===== src/Models.antt =====
-- crates/orion-models: the CPU reference implementation of the model.
pub mod Quantization
pub mod Run
pub mod Attention
pub mod Backend
pub mod Config
pub mod Float
pub mod Loaded
pub mod Loader
pub mod Store
pub mod Tensor
pub mod Transformer
pub mod Tests
