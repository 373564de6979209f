-- ===== src/Models/Config/Described.antt =====
-- What a `config.json` says, and the metadata that `to_metadata` makes of it
-- (crates/orion-models/src/config.rs).
use Prim.Native.String.{String}
use orion_serve_rs.Prelude.{ℕ, zero, suc, ◌/◌, ◌%◌, ◌<◌, ◌≡◌, ◌↔◌, refl, sym, subst, arith}
use orion_serve_rs.Prelude.Defaults.{OrElse, OrElse-of, unwrap_or-OrElse}
use orion_serve_rs.Core.Model.{ModelMetadata}
use orion_serve_rs.Models.Loaded.{loaded}
use orion_serve_rs.Models.Config.{
  HfConfig, Architecture, detect, at_least_one, kv_heads_of, head_dim_of, to_metadata,
}
use orion_serve_rs.Models.Config.Names.{
  Detected, ShortName, DtypeName, EosOf, detects, detected, dtype_parsed, dtype_named, short_name,
  as_str-ShortName, eos_of-EosOf, EosOf-eos_of,
}
use orion_serve_rs.Models.Config.Accepts.{Normalized, Normalized-of, to_metadata-Normalized}

-- The metadata, field by field, with its defaults: 2048 positions, and the bits of 10000.0 and of
-- 1e-5. Without key-value heads each head has its own, and without a head size the hidden size is
-- shared among the heads.
pub record Described (c : HfConfig) (name : String) (meta : ModelMetadata) : Type 0 where
  pub arch : Architecture
  pub detected : Detected c.model_type c.architectures arch
  pub architecture : ShortName arch meta.architecture
  pub called : meta.name ≡ name
  pub hidden_size : meta.hidden_size ≡ c.hidden_size
  pub num_layers : meta.num_layers ≡ c.num_hidden_layers
  pub num_attention_heads : meta.num_attention_heads ≡ c.num_attention_heads
  pub num_kv_heads : OrElse c.num_attention_heads c.num_key_value_heads meta.num_kv_heads
  pub head_dim : OrElse (c.hidden_size / c.num_attention_heads) c.head_dim meta.head_dim
  pub vocab_size : meta.vocab_size ≡ c.vocab_size
  pub max_position_embeddings : OrElse 2048 c.max_position_embeddings meta.max_position_embeddings
  pub rope_theta : OrElse 1176256512 c.rope_theta meta.rope_theta
  pub rms_norm_eps : OrElse 925353388 c.rms_norm_eps meta.rms_norm_eps
  pub dtype : DtypeName c.torch_dtype meta.dtype
  pub eos_token_ids : EosOf c.eos_token_id meta.eos_token_ids
  pub bos_token_id : meta.bos_token_id ≡ c.bos_token_id
  pub some_layers : 0 < meta.num_layers
  pub some_heads : 0 < meta.num_attention_heads
  pub some_kv_heads : 0 < meta.num_kv_heads
  pub grouped : meta.num_attention_heads % meta.num_kv_heads ≡ 0
  pub some_head_dim : 0 < meta.head_dim
  pub some_vocab : 0 < meta.vocab_size

at_least_one_pos : (n : ℕ) → 0 < n → at_least_one n ≡ n
at_least_one_pos zero h = absurd (omega arith)
at_least_one_pos (suc n) h = refl

Normalized-Described :
    (c : HfConfig) (name : String) (meta : ModelMetadata)
    → Normalized c name meta
    → Described c name meta
unfolding detect
Normalized-Described c name meta n =
    let a = n.acceptable in
    subst (Described c name) n.metadata (record {
      arch = n.arch;
      detected = detected c.model_type c.architectures c.architectures n.arch n.detected;
      architecture = short_name n.arch;
      called = refl;
      hidden_size = refl;
      num_layers = refl;
      num_attention_heads = refl;
      num_kv_heads = OrElse-of _ c.num_key_value_heads;
      head_dim =
          subst (λ d. OrElse (c.hidden_size / d) c.head_dim (head_dim_of c))
            (at_least_one_pos c.num_attention_heads a.num_attention_heads) (OrElse-of _ c.head_dim);
      vocab_size = refl;
      max_position_embeddings = OrElse-of _ c.max_position_embeddings;
      rope_theta = OrElse-of _ c.rope_theta;
      rms_norm_eps = OrElse-of _ c.rms_norm_eps;
      dtype = dtype_named c.torch_dtype n.dtype n.parsed;
      eos_token_ids = eos_of-EosOf c.eos_token_id;
      bos_token_id = refl;
      some_layers = a.num_hidden_layers;
      some_heads = a.num_attention_heads;
      some_kv_heads = a.num_kv_heads;
      grouped = a.grouped;
      some_head_dim = a.head_dim;
      some_vocab = a.vocab_size;
    })

Described-Normalized :
    (c : HfConfig) (name : String) (meta : ModelMetadata)
    → Described c name meta
    → Normalized c name meta
unfolding detect
Described-Normalized c name meta d =
    let heads : 0 < c.num_attention_heads = rw d.num_attention_heads at d.some_heads in
    let kv : kv_heads_of c ≡ meta.num_kv_heads = unwrap_or-OrElse d.num_kv_heads in
    let dim : head_dim_of c ≡ meta.head_dim =
      rw (at_least_one_pos c.num_attention_heads heads) (unwrap_or-OrElse d.head_dim) in
    record {
      arch = d.arch;
      dtype = meta.dtype;
      detected = detects c.model_type c.architectures c.architectures d.arch d.detected;
      parsed = dtype_parsed c.torch_dtype meta.dtype d.dtype;
      metadata =
          rw
            (
              kv,
              dim,
              as_str-ShortName d.architecture,
              sym d.called,
              sym d.hidden_size,
              sym d.num_layers,
              sym d.num_attention_heads,
              sym d.vocab_size,
              sym d.bos_token_id,
              unwrap_or-OrElse d.max_position_embeddings,
              unwrap_or-OrElse d.rope_theta,
              unwrap_or-OrElse d.rms_norm_eps,
              EosOf-eos_of d.eos_token_ids,
            )
            refl;
      acceptable = record {
        num_attention_heads = heads;
        num_hidden_layers = rw d.num_layers at d.some_layers;
        num_kv_heads = rw kv d.some_kv_heads;
        grouped = rw kv (rw d.num_attention_heads at d.grouped);
        head_dim = rw dim d.some_head_dim;
        vocab_size = rw d.vocab_size at d.some_vocab;
      };
    }

-- `to_metadata` gives metadata for a configuration exactly if these are what the configuration
-- says: the architecture is that of the first known class name, or else of the model type; the
-- data type is the one named, or f32; each other field is the one stated or its default (as many
-- key-value heads as heads, the hidden size shared among the heads, 2048 positions, 10000.0 and
-- 1e-5, no end-of-sequence tokens); and the layers, heads, key-value heads, head size and
-- vocabulary are not zero, the key-value heads dividing the heads.
pub to_metadata_iff :
    (c : HfConfig) (name : String) (meta : ModelMetadata)
    → (to_metadata c name ≡ loaded meta) ↔ Described c name meta
to_metadata_iff c name meta = (
  λ e. Normalized-Described c name meta (Normalized-of c name meta e),
  λ d. to_metadata-Normalized c name meta (Described-Normalized c name meta d),
)
