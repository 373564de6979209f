-- ===== src/Models/Float.antt =====
-- The arithmetic of crates/orion-models/src/tensor.rs and attention.rs: `f32` and `f64` as bits.
-- Rust's floating-point operations are arguments of the model.
use orion_serve_rs.Prelude.{ℕ}

pub record Floats : Type 0 where
  pub add : ℕ → ℕ → ℕ
  pub sub : ℕ → ℕ → ℕ
  pub mul : ℕ → ℕ → ℕ
  pub div : ℕ → ℕ → ℕ
  pub neg : ℕ → ℕ
  pub exp : ℕ → ℕ
  pub sqrt : ℕ → ℕ
  pub powf : ℕ → ℕ → ℕ
  pub cos : ℕ → ℕ
  pub sin : ℕ → ℕ
  pub of_usize : ℕ → ℕ
  -- `as f64` and `as f32`
  pub to_f64 : ℕ → ℕ
  pub of_f64 : ℕ → ℕ
  pub add_f64 : ℕ → ℕ → ℕ
  pub mul_f64 : ℕ → ℕ → ℕ
  pub div_f64 : ℕ → ℕ → ℕ
  pub sqrt_f64 : ℕ → ℕ
  pub usize_to_f64 : ℕ → ℕ
