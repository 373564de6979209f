-- ===== src/Models/Transformer/Load.antt =====
-- crates/orion-models/src/transformer.rs: the weights of a checkpoint, and a model made of them.
pub mod Shapes
pub mod Answers
use Prim.Native.String.{String, ◌++◌}
use orion_serve_rs.Prelude.{
  ℕ, zero, suc, ◌*◌, Bool, true, false, not, ◌||◌, Option, none, some, List, [], ◌∷◌, if◌then◌else◌,
}
use orion_serve_rs.Core.Error.{malformed}
use orion_serve_rs.Core.Model.{ModelMetadata}
use orion_serve_rs.Models.Loaded.{Loaded, loaded, refused, ◌>>=◌}
use orion_serve_rs.Models.Float.{Floats}
use orion_serve_rs.Models.Store
use orion_serve_rs.Models.Store.{KvStore}
use orion_serve_rs.Models.Tensor.{Matrix, RopeTable, new_rope}
use orion_serve_rs.Models.Config.{
  HfConfig, Architecture, has_qkv_bias, detect, to_metadata, ffn_dim, ties_embeddings,
}
use orion_serve_rs.Models.Loader.{
  Format, CheckpointLoader, contains, matrix, vector, optional_vector, of_run, open_dir,
}
use orion_serve_rs.Models.Transformer.{LayerWeights, ModelWeights, TransformerModel}

module _ {S : Type 0} (fmt : Format S) (l : CheckpointLoader S) where
  -- `format!("model.layers.{i}") + suffix`
  abbrev pub at_layer : ℕ → String → String
  at_layer i suffix = "model.layers." ++ fmt.usize_to_string i ++ suffix

  -- A bias of the attention, for an architecture that has them.
  abbrev pub bias : Architecture → String → ℕ → Loaded (Option (List ℕ))
  bias arch name n = if has_qkv_bias arch then optional_vector fmt l name n else loaded none

  -- The weights of block `i`, with the query, key-value and feed-forward widths.
  unfoldable pub load_layer : Architecture → ℕ → ℕ → ℕ → ℕ → ℕ → Loaded LayerWeights
  unfolding vector matrix optional_vector
  load_layer arch hidden q_dim kv_dim ffn i = do
    q_bias ← bias arch (at_layer i ".self_attn.q_proj.bias") q_dim
    k_bias ← bias arch (at_layer i ".self_attn.k_proj.bias") kv_dim
    v_bias ← bias arch (at_layer i ".self_attn.v_proj.bias") kv_dim
    input_norm ← vector fmt l (at_layer i ".input_layernorm.weight") hidden
    q_proj ← matrix fmt l (at_layer i ".self_attn.q_proj.weight") q_dim hidden
    k_proj ← matrix fmt l (at_layer i ".self_attn.k_proj.weight") kv_dim hidden
    v_proj ← matrix fmt l (at_layer i ".self_attn.v_proj.weight") kv_dim hidden
    o_proj ← matrix fmt l (at_layer i ".self_attn.o_proj.weight") hidden q_dim
    post_attn_norm ← vector fmt l (at_layer i ".post_attention_layernorm.weight") hidden
    gate_proj ← matrix fmt l (at_layer i ".mlp.gate_proj.weight") ffn hidden
    up_proj ← matrix fmt l (at_layer i ".mlp.up_proj.weight") ffn hidden
    down_proj ← matrix fmt l (at_layer i ".mlp.down_proj.weight") hidden ffn
    loaded (record {
      input_norm = input_norm;
      q_proj = q_proj;
      k_proj = k_proj;
      v_proj = v_proj;
      o_proj = o_proj;
      q_bias = q_bias;
      k_bias = k_bias;
      v_bias = v_bias;
      post_attn_norm = post_attn_norm;
      gate_proj = gate_proj;
      up_proj = up_proj;
      down_proj = down_proj;
    })

  -- The `left` blocks from `i` on.
  abbrev pub load_layers : Architecture → ℕ → ℕ → ℕ → ℕ → ℕ → ℕ → Loaded (List LayerWeights)
  load_layers arch hidden q_dim kv_dim ffn i zero = loaded []
  load_layers arch hidden q_dim kv_dim ffn i (suc left) = do
    w ← load_layer arch hidden q_dim kv_dim ffn i
    rest ← load_layers arch hidden q_dim kv_dim ffn (suc i) left
    loaded (w ∷ rest)

  -- None where the head is the embedding matrix.
  abbrev pub load_head : HfConfig → ModelMetadata → Loaded (Option Matrix)
  load_head config meta =
      if ties_embeddings config || not (contains fmt l "lm_head.weight")
      then loaded none
      else (matrix fmt l "lm_head.weight" meta.vocab_size meta.hidden_size >>= λ m. loaded (some m))

  unfoldable pub load_weights : HfConfig → ModelMetadata → Architecture → Loaded ModelWeights
  unfolding load_layer
  load_weights config meta arch = do
    embed_tokens ← matrix fmt l "model.embed_tokens.weight" meta.vocab_size meta.hidden_size
    layers ←
        load_layers arch meta.hidden_size (meta.num_attention_heads * meta.head_dim)
          (meta.num_kv_heads * meta.head_dim) (ffn_dim config) 0 meta.num_layers
    lm_head ← load_head config meta
    final_norm ← vector fmt l "model.norm.weight" meta.hidden_size
    loaded (record {
      embed_tokens = embed_tokens;
      layers = layers;
      final_norm = final_norm;
      lm_head = lm_head;
    })

-- The model and its arena, which the mutex holds.
unfoldable pub new_model :
    Floats → ModelMetadata → ModelWeights → ℕ → ℕ → Loaded (TransformerModel × KvStore)
unfolding new_rope Store.new
new_model f meta weights num_blocks block_size =
    of_run (new_rope f meta.head_dim meta.max_position_embeddings meta.rope_theta)
      (malformed "config.json" "RoPE requires an even head_dim")
    >>= λ rope. loaded (
      record { meta = meta; weights = weights; rope = rope; block_size = block_size },
      Store.new meta.num_layers num_blocks block_size meta.num_kv_heads meta.head_dim,
    )

-- A model from the configuration and the files of a directory, whose name is `name`.
unfoldable pub from_directory :
    Floats
    → {S : Type 0} → Format S
    → Loaded HfConfig
    → String
    → Bool
    → Loaded (List String)
    → ℕ
    → ℕ
    → Loaded (TransformerModel × KvStore)
unfolding load_weights new_model detect to_metadata open_dir
from_directory f fmt read_config name exists listing num_blocks block_size = do
  config ← read_config
  arch ← detect config
  meta ← to_metadata config name
  l ← open_dir fmt name exists listing
  weights ← load_weights fmt l config meta arch
  new_model f meta weights num_blocks block_size
