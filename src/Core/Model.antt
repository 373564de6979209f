-- ===== src/Core/Model.antt =====
-- crates/orion-core/src/traits.rs: numeric types and the metadata of a model.
use Prim.Native.String.{String}
use orion_serve_rs.Prelude.{ℕ, ◌+◌, ◌*◌, ◌/◌, Bool, Option, List, if◌then◌else◌, ◌==◌, ltb}

pub data DType : Type 0 where
  f32 f16 bf16 i8 i4 : DType

unfoldable pub bits : DType → ℕ
bits f32 = 32
bits f16 = 16
bits bf16 = 16
bits i8 = 8
bits i4 = 4

-- `(n * self.bits()).div_ceil(8)`
unfoldable pub size_in_bytes : DType → ℕ → ℕ
unfolding bits
size_in_bytes d n = (n * bits d + 7) / 8

-- Fields of type `f32` hold bits.
pub record ModelMetadata : Type 0 where
  pub architecture : String
  pub name : String
  pub hidden_size : ℕ
  pub num_layers : ℕ
  pub num_attention_heads : ℕ
  pub num_kv_heads : ℕ
  pub head_dim : ℕ
  pub vocab_size : ℕ
  pub max_position_embeddings : ℕ
  pub rope_theta : ℕ
  pub rms_norm_eps : ℕ
  pub dtype : DType
  pub eos_token_ids : List ℕ
  pub bos_token_id : Option ℕ

unfoldable pub kv_bytes_per_token : ModelMetadata → ℕ
unfolding size_in_bytes
kv_bytes_per_token m = size_in_bytes m.dtype (2 * m.num_layers * m.num_kv_heads * m.head_dim)

abbrev pub uses_gqa : ModelMetadata → Bool
uses_gqa m = ltb m.num_kv_heads m.num_attention_heads

-- `checked_div(..).unwrap_or(0)`
unfoldable pub gqa_group_size : ModelMetadata → ℕ
gqa_group_size m = if m.num_kv_heads == 0 then 0 else m.num_attention_heads / m.num_kv_heads
