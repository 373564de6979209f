-- ===== src/Models/Transformer.antt =====
-- crates/orion-models/src/transformer.rs: the weights, and the forward pass over the paged cache. The
-- store behind the mutex is passed along; a call that fails does not give back what it wrote. The
-- backend and the log are left out.
pub mod Load
pub mod Layer
pub mod Forward
use orion_serve_rs.Prelude.{
  ℕ, zero, suc, ◌+◌, ◌-◌, ◌*◌, Option, none, some, List, [], ◌∷◌, ◌++◌, if◌then◌else◌, ◌==◌, not,
  true, false, length, get_elem?, take, drop,
}
use orion_serve_rs.Core.Error.{EngineError, Result, ok, err, internal}
use orion_serve_rs.Core.Model.{ModelMetadata}
use orion_serve_rs.Core.Batch.{ForwardBatch, validate}
use orion_serve_rs.Core.Forward.{ForwardOutput}
use orion_serve_rs.Models.Run.{
  Run, returned, failed, panic, ◌>>=◌, ok_or, expect, slice, copy_from_slice,
}
use orion_serve_rs.Models.Float.{Floats}
use orion_serve_rs.Models.Store.{KvStore, write}
use orion_serve_rs.Models.Attention.{locate, paged_attention}
use orion_serve_rs.Models.Tensor.{
  Matrix, row, linear, rms_norm, swiglu, zip_in_place, RopeTable, at, apply_rope,
}

pub record LayerWeights : Type 0 where
  pub input_norm : List ℕ
  pub q_proj : Matrix
  pub k_proj : Matrix
  pub v_proj : Matrix
  pub o_proj : Matrix
  pub q_bias : Option (List ℕ)
  pub k_bias : Option (List ℕ)
  pub v_bias : Option (List ℕ)
  pub post_attn_norm : List ℕ
  pub gate_proj : Matrix
  pub up_proj : Matrix
  pub down_proj : Matrix

pub record ModelWeights : Type 0 where
  pub embed_tokens : Matrix
  pub layers : List LayerWeights
  pub final_norm : List ℕ
  pub lm_head : Option Matrix

-- The store is apart.
pub record TransformerModel : Type 0 where
  pub meta : ModelMetadata
  pub weights : ModelWeights
  pub rope : RopeTable
  pub block_size : ℕ

abbrev pub head_or : Option Matrix → Matrix → Matrix
head_or none table = table
head_or (some head) table = head

-- `lm_head.as_ref().unwrap_or(&embed_tokens)`
abbrev pub head_of : ModelWeights → Matrix
head_of w = head_or w.lm_head w.embed_tokens

-- `row(i).expect("row in range")`
abbrev pub expect_row : Matrix → ℕ → Run (List ℕ)
expect_row m i = row m i >>= expect

-- The rows of the tokens, one after the other; a row of another width panics where it is copied.
abbrev pub embed_rows : Matrix → ℕ → List ℕ → Run (List ℕ)
embed_rows table hidden [] = returned []
embed_rows table hidden (t ∷ ts) = row table t >>= λ found.
    ok_or found (internal "token id is outside the vocabulary") >>= λ r.
    if not (length r == hidden)
    then panic
    else (embed_rows table hidden ts >>= λ rest. returned (r ++ rest))

unfoldable pub embed : TransformerModel → List ℕ → Run Matrix
embed m tokens = embed_rows m.weights.embed_tokens m.meta.hidden_size tokens >>= λ xs.
    returned (record { elements = xs; rows = length tokens; cols = m.meta.hidden_size })

-- A slot of the cache, for the keys and values of a row: the block, and the slot in it.
abbrev pub PhysicalSlot : Type 0
PhysicalSlot = ℕ × ℕ

-- The keys and the values of one row, for the heads from `h` on.
abbrev pub write_heads : KvStore → ℕ → PhysicalSlot → List ℕ → List ℕ → ℕ → ℕ → ℕ → Run KvStore
write_heads kv layer place krow vrow head_dim h zero = returned kv
write_heads kv layer place krow vrow head_dim h (suc left) = do
  key ← slice krow (h * head_dim) (h * head_dim + head_dim)
  kv₁ ← write kv layer place.0 place.1 h false key
  value ← slice vrow (h * head_dim) (h * head_dim + head_dim)
  kv₂ ← write kv₁ layer place.0 place.1 h true value
  write_heads kv₂ layer place krow vrow head_dim (suc h) left

-- The rows from `i` on.
abbrev pub write_rows :
    ModelMetadata → KvStore → ℕ → Matrix → Matrix → ℕ → List PhysicalSlot → Run KvStore
write_rows meta kv layer k v i [] = returned kv
write_rows meta kv layer k v i (place ∷ slots) = do
  krow ← expect_row k i
  vrow ← expect_row v i
  kv' ← write_heads kv layer place krow vrow meta.head_dim 0 meta.num_kv_heads
  write_rows meta kv' layer k v (suc i) slots

-- `data_mut().iter_mut().zip(other.data().iter())`, a sum at each pair.
abbrev pub add_residual : Floats → Matrix → Matrix → Matrix
add_residual f x y = record x { elements = zip_in_place f.add x.elements y.elements }

-- The output of the attention, which its rows fill.
abbrev pub attention_output : TransformerModel → ℕ → List ℕ → Matrix
attention_output m n xs = record {
  elements = xs;
  rows = n;
  cols = m.meta.num_attention_heads * m.meta.head_dim;
}

module _ (f : Floats) where
  -- The heads of one row, from `h` on, each rotated in place.
  abbrev pub rope_heads : List ℕ → List ℕ → ℕ → List ℕ → ℕ → ℕ → Run (List ℕ)
  rope_heads cos sin head_dim xs h zero = returned xs
  rope_heads cos sin head_dim xs h (suc left) = do
    vec ← slice xs (h * head_dim) (h * head_dim + head_dim)
    turned ← apply_rope f vec cos sin
    xs' ← copy_from_slice xs (h * head_dim) turned
    rope_heads cos sin head_dim xs' (suc h) left

  -- The `i`th row of a matrix, with its heads rotated.
  abbrev pub rope_row : List ℕ → List ℕ → ℕ → ℕ → Matrix → ℕ → Run Matrix
  rope_row cos sin head_dim heads m i = do
    r ← expect_row m i
    r' ← rope_heads cos sin head_dim r 0 heads
    xs ← copy_from_slice m.elements (i * m.cols) r'
    returned (record m { elements = xs })

  -- The rows from `i` on, of the queries and of the keys.
  abbrev pub rope_rows :
      ModelMetadata → RopeTable → Matrix → Matrix → ℕ → List ℕ → Run (Matrix × Matrix)
  rope_rows meta rope q k i [] = returned (q, k)
  rope_rows meta rope q k i (pos ∷ positions) = at rope pos >>= λ found.
      ok_or found (internal "position exceeds the RoPE table") >>= λ angle.
      rope_row angle.0 angle.1 meta.head_dim meta.num_attention_heads q i >>= λ q'.
      rope_row angle.0 angle.1 meta.head_dim meta.num_kv_heads k i >>= λ k'.
      rope_rows meta rope q' k' (suc i) positions

  -- The attention of the `left` rows from `i` on. The lists stand at row `i`.
  abbrev pub attend_rows :
      TransformerModel
      → KvStore
      → ℕ
      → List (List ℕ)
      → List ℕ
      → Matrix
      → ℕ
      → List ℕ
      → List ℕ
      → ℕ
      → Run (List ℕ)
  attend_rows m kv layer tables contexts q i seqs positions zero = returned []
  attend_rows m kv layer tables contexts q i (seq ∷ seqs) (pos ∷ positions) (suc left) =
      expect_row q i >>= λ qrow. expect (get_elem? tables seq) >>= λ table.
      expect (get_elem? contexts seq) >>= λ context_len.
      paged_attention f kv qrow
        (record {
          block_table = table;
          context_len = context_len;
          query_position = pos;
          layer = layer;
          num_query_heads = m.meta.num_attention_heads;
          num_kv_heads = m.meta.num_kv_heads;
          head_dim = m.meta.head_dim;
          block_size = m.block_size;
        })
        (m.meta.num_attention_heads * m.meta.head_dim)
      >>= λ o. attend_rows m kv layer tables contexts q (suc i) seqs positions left >>= λ rest.
          returned (o ++ rest)
  attend_rows m kv layer tables contexts q i _ _ (suc left) = panic

  -- The second half of a block: the feed-forward network and its residual.
  abbrev pub mlp : TransformerModel → LayerWeights → Matrix → Run Matrix
  mlp m w hidden = do
    normed ← rms_norm f hidden w.post_attn_norm m.meta.rms_norm_eps
    gate ← linear f normed w.gate_proj none
    up ← linear f normed w.up_proj none
    act ← swiglu f gate up
    out ← linear f act w.down_proj none
    returned (add_residual f hidden out)

  -- The hidden states and the store after one block.
  unfoldable pub layer_forward :
      TransformerModel
      → KvStore
      → ℕ
      → LayerWeights
      → Matrix
      → List ℕ
      → List PhysicalSlot
      → List ℕ
      → List (List ℕ)
      → List ℕ
      → Run (Matrix × KvStore)
  layer_forward m kv layer w hidden positions slots seqs tables contexts = do
    normed ← rms_norm f hidden w.input_norm m.meta.rms_norm_eps
    q ← linear f normed w.q_proj w.q_bias
    k ← linear f normed w.k_proj w.k_bias
    v ← linear f normed w.v_proj w.v_bias
    turned ← rope_rows m.meta m.rope q k 0 (take hidden.rows positions)
    kv' ← write_rows m.meta kv layer turned.1 v 0 (take hidden.rows slots)
    xs ← attend_rows m kv' layer tables contexts turned.0 0 seqs positions hidden.rows
    projected ← linear f (attention_output m hidden.rows xs) w.o_proj none
    out ← mlp m w (add_residual f hidden projected)
    returned (out, kv')
