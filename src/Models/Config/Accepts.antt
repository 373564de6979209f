-- ===== src/Models/Config/Accepts.antt =====
-- Which configurations are accepted (crates/orion-models/src/config.rs, `to_metadata`).
use Prim.Native.String.{String}
use orion_serve_rs.Prelude.{◌%◌, ◌<◌, ◌≡◌, ◌⊎◌, inl, inr, refl, ◌∙◌, arith}
use orion_serve_rs.Core.Error.{ModelError}
use orion_serve_rs.Core.Model.{DType, ModelMetadata}
use orion_serve_rs.Models.Loaded.{Loaded, loaded, refused, loaded_injective, refused-ne-loaded}
use orion_serve_rs.Models.Config.{
  HfConfig, Architecture, detect, parse_dtype, kv_heads_of, head_dim_of, metadata_of, checked,
  to_metadata,
}

-- Layers, heads, key-value heads that divide the heads, and head and vocabulary sizes that are not
-- zero, whether these stand in the configuration or are derived.
pub record Acceptable (c : HfConfig) : Type 0 where
  pub num_attention_heads : 0 < c.num_attention_heads
  pub num_hidden_layers : 0 < c.num_hidden_layers
  pub num_kv_heads : 0 < kv_heads_of c
  pub grouped : c.num_attention_heads % kv_heads_of c ≡ 0
  pub head_dim : 0 < head_dim_of c
  pub vocab_size : 0 < c.vocab_size

checked_pass : (c : HfConfig) (next : Loaded ModelMetadata) → Acceptable c → checked c next ≡ next
checked_pass c next a = ground (
  arith, a.num_attention_heads, a.num_hidden_layers, a.num_kv_heads, a.grouped, a.head_dim,
  a.vocab_size,
)

checked_inv :
    (c : HfConfig) (next : Loaded ModelMetadata) (meta : ModelMetadata)
    → checked c next ≡ loaded meta
    → Acceptable c × (next ≡ loaded meta)
checked_inv c next meta e = (
  record {
    num_attention_heads = ground arith;
    num_hidden_layers = ground arith;
    num_kv_heads = ground arith;
    grouped = ground arith;
    head_dim = ground arith;
    vocab_size = ground arith;
  },
  ground arith,
)

-- The metadata that the configuration stands for.
pub record Normalized (c : HfConfig) (name : String) (meta : ModelMetadata) : Type 0 where
  pub arch : Architecture
  pub dtype : DType
  pub detected : detect c ≡ loaded arch
  pub parsed : parse_dtype c.torch_dtype ≡ loaded dtype
  pub metadata : metadata_of c name arch dtype ≡ meta
  pub acceptable : Acceptable c

loaded_cases :
    {A : Type 0} (r : Loaded A) → ((a : A) × (r ≡ loaded a)) ⊎ ((e : ModelError) × (r ≡ refused e))
loaded_cases (loaded a) = inl (a, refl)
loaded_cases (refused e) = inr (e, refl)

pub Normalized-of :
    (c : HfConfig) (name : String) (meta : ModelMetadata)
    → to_metadata c name ≡ loaded meta
    → Normalized c name meta
unfolding to_metadata
Normalized-of c name meta e = elim (loaded_cases (detect c)) [
  | inr (why, no_arch) ↦ absurd (refused-ne-loaded (rw no_arch at e))
  | inl (arch, detected) ↦
      let run = rw detected at e in
      let (acceptable, next) = checked_inv c _ meta run in
      elim (loaded_cases (parse_dtype c.torch_dtype)) [
        | inr (why, no_dtype) ↦ absurd (refused-ne-loaded (rw no_dtype at next))
        | inl (dtype, parsed) ↦ record {
          arch = arch;
          dtype = dtype;
          detected = detected;
          parsed = parsed;
          metadata = loaded_injective (rw parsed at next);
          acceptable = acceptable;
        }
      ]
]

pub to_metadata-Normalized :
    (c : HfConfig) (name : String) (meta : ModelMetadata)
    → Normalized c name meta
    → to_metadata c name ≡ loaded meta
unfolding to_metadata
to_metadata-Normalized c name meta n =
    rw n.detected (checked_pass c _ n.acceptable ∙ (rw (n.parsed, n.metadata) refl))
