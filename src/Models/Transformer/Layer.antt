-- ===== src/Models/Transformer/Layer.antt =====
-- One block of the transformer (crates/orion-models/src/transformer.rs, `layer_forward`) returns, for
-- weights of the shapes that are loaded and rows that have a place in the cache.
pub mod Cache
pub mod Rows
pub mod Total
use orion_serve_rs.Prelude.{
  ℕ, zero, suc, ◌+◌, ◌*◌, ◌%◌, ◌≤◌, ◌<◌, ◌≡◌, refl, sym, ap, ◌∙◌, subst, false, Option, none, some,
  List, [], ◌∷◌, arith, length, take, get_elem?, All, length-take,
}
use orion_serve_rs.Core.Model.{ModelMetadata}
use orion_serve_rs.Models.Run.{Run, returned, ◌>>=◌, Returns, returns, Returns-bind}
use orion_serve_rs.Models.Float.{Floats}
use orion_serve_rs.Models.Store.{KvStore}
use orion_serve_rs.Models.Store.Offsets.{Sized}
use orion_serve_rs.Models.Tensor.{Matrix, wrong_bias}
use orion_serve_rs.Models.Tensor.Shape.{Shaped}
use orion_serve_rs.Models.Tensor.Rope.{Spans}
use orion_serve_rs.Models.Transformer.{
  LayerWeights, ModelWeights, TransformerModel, PhysicalSlot, head_of,
}

abbrev pub q_dim : ModelMetadata → ℕ
q_dim meta = meta.num_attention_heads * meta.head_dim

abbrev pub kv_dim : ModelMetadata → ℕ
kv_dim meta = meta.num_kv_heads * meta.head_dim

-- The shapes that `ModelWeights::load` asks for.
pub record LayerShaped (meta : ModelMetadata) (ffn : ℕ) (w : LayerWeights) : Type 0 where
  pub input_norm : length w.input_norm ≡ meta.hidden_size
  pub q_proj : Shaped (q_dim meta) meta.hidden_size w.q_proj
  pub k_proj : Shaped (kv_dim meta) meta.hidden_size w.k_proj
  pub v_proj : Shaped (kv_dim meta) meta.hidden_size w.v_proj
  pub o_proj : Shaped meta.hidden_size (q_dim meta) w.o_proj
  pub q_bias : wrong_bias w.q_bias (q_dim meta) ≡ false
  pub k_bias : wrong_bias w.k_bias (kv_dim meta) ≡ false
  pub v_bias : wrong_bias w.v_bias (kv_dim meta) ≡ false
  pub post_attn_norm : length w.post_attn_norm ≡ meta.hidden_size
  pub gate_proj : Shaped ffn meta.hidden_size w.gate_proj
  pub up_proj : Shaped ffn meta.hidden_size w.up_proj
  pub down_proj : Shaped meta.hidden_size ffn w.down_proj

-- The same for the model, with the embedding as the head where there is none of its own.
pub record WeightsShaped (meta : ModelMetadata) (w : ModelWeights) (ffn : ℕ) : Type 0 where
  pub embed_tokens : Shaped meta.vocab_size meta.hidden_size w.embed_tokens
  pub num_layers : length w.layers ≡ meta.num_layers
  pub layers : All (LayerShaped meta ffn) w.layers
  pub final_norm : length w.final_norm ≡ meta.hidden_size
  pub head : Shaped meta.vocab_size meta.hidden_size (head_of w)

-- What the configuration promises, and the rotary table made from it.
pub record ModelFits (m : TransformerModel) : Type 0 where
  pub hidden : 0 < m.meta.hidden_size
  pub kv_heads : 0 < m.meta.num_kv_heads
  pub grouped : m.meta.num_attention_heads % m.meta.num_kv_heads ≡ 0
  pub block_size : 0 < m.block_size
  pub rope : Spans m.meta.head_dim m.meta.max_position_embeddings m.rope

-- The arena is the model's, with `blocks` blocks.
pub record StoreFits (m : TransformerModel) (blocks : ℕ) (kv : KvStore) : Type 0 where
  pub sized : Sized kv
  pub num_layers : kv.num_layers ≡ m.meta.num_layers
  pub num_blocks : kv.num_blocks ≡ blocks
  pub block_size : kv.block_size ≡ m.block_size
  pub num_kv_heads : kv.num_kv_heads ≡ m.meta.num_kv_heads
  pub head_dim : kv.head_dim ≡ m.meta.head_dim

-- A row at a position of a sequence: the sequence's table reaches the position, and its blocks are
-- blocks of the arena.
abbrev pub RowFits : TransformerModel → ℕ → List (List ℕ) → ℕ → ℕ → Type 0
RowFits m blocks tables seq pos =
    (table : List ℕ) × (get_elem? tables seq ≡ some table)
    × (pos < length table * m.block_size)
    × All (λ b. b < blocks) table
    × (pos < m.meta.max_position_embeddings)

abbrev pub RowsFit : TransformerModel → ℕ → List (List ℕ) → List ℕ → List ℕ → Type 0
RowsFit m blocks tables [] [] = Unit
RowsFit m blocks tables (seq ∷ seqs) (pos ∷ positions) =
    RowFits m blocks tables seq pos × RowsFit m blocks tables seqs positions
RowsFit m blocks tables _ _ = ⊥

abbrev pub PlaceFits : TransformerModel → ℕ → PhysicalSlot → Type 0
PlaceFits m blocks place = (place.0 < blocks) × (place.1 < m.block_size)
