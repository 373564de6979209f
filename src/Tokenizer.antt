-- ===== src/Tokenizer.antt =====
-- crates/orion-tokenizer: text, the incremental decoder, chat templates and stop sequences.
pub mod Text
pub mod Decoder
pub mod Stop
pub mod Template
pub mod Tests
