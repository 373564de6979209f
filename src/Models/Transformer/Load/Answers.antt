-- ===== src/Models/Transformer/Load/Answers.antt =====
-- A model loaded from a directory (crates/orion-models/src/transformer.rs, `from_directory`) answers
-- batches.
use Prim.Native.String.{String}
use orion_serve_rs.Prelude.{
  ℕ, ◌%◌, ◌<◌, ◌≡◌, refl, sym, subst, Bool, false, List, ◌==◌, ==_iff, Bool-cases, inl, inr,
}
use orion_serve_rs.Core.Error.{ModelError}
use orion_serve_rs.Core.Batch.{ForwardBatch}
use orion_serve_rs.Core.Model.{ModelMetadata}
use orion_serve_rs.Models.Run.{Returns}
use orion_serve_rs.Models.Loaded.{
  Loaded, loaded, Gives, gives, nothing, Gives-bind, Gives-of, Gives-when, Gives-after,
}
use orion_serve_rs.Models.Float.{Floats}
use orion_serve_rs.Models.Store.{KvStore, new}
use orion_serve_rs.Models.Store.Access.{new-Sized}
use orion_serve_rs.Models.Tensor.{new_rope}
use orion_serve_rs.Models.Tensor.Rope.{Spans, new_rope-Spans}
use orion_serve_rs.Models.Config.{HfConfig, detect, to_metadata, ffn_dim}
use orion_serve_rs.Models.Config.Accepts.{Normalized, Normalized-of}
use orion_serve_rs.Models.Loader.{Format, of_run, open_dir}
use orion_serve_rs.Models.Loader.Index.{Checks, of_run-Gives}
use orion_serve_rs.Models.Transformer.{ModelWeights, TransformerModel}
use orion_serve_rs.Models.Transformer.Load.{new_model, from_directory}
use orion_serve_rs.Models.Transformer.Load.Shapes.{load_weights-WeightsShaped}
use orion_serve_rs.Models.Transformer.Layer.{WeightsShaped, ModelFits, StoreFits}
use orion_serve_rs.Models.Transformer.Forward.{forward}
use orion_serve_rs.Models.Transformer.Forward.Total.{BatchFits, Answers, forward-Answers}

new_rope-odd :
    (f : Floats) (d p theta : ℕ) (e : ModelError)
    → ((d % 2) == 0) ≡ false
    → Gives (Spans d p) (of_run (new_rope f d p theta) e)
unfolding new_rope
new_rope-odd f d p theta e odd = rw odd nothing

new_rope-Gives :
    (f : Floats) (d p theta : ℕ) (e : ModelError)
    → Gives (Spans d p) (of_run (new_rope f d p theta) e)
new_rope-Gives f d p theta e = elim (Bool-cases ((d % 2) == 0)) [
  | inl even ↦ of_run-Gives e (new_rope-Spans f d p theta ((==_iff (d % 2) 0).0 even))
  | inr odd ↦ new_rope-odd f d p theta e odd
]

-- What a model that was made gives: its parts, an arena that fits it, and groups of heads.
pub record Ready (num_blocks block_size : ℕ) (made : TransformerModel × KvStore) : Type 0 where
  pub ffn : ℕ
  pub weights : WeightsShaped made.0.meta made.0.weights ffn
  pub store : StoreFits made.0 num_blocks made.1
  pub block_size_is : made.0.block_size ≡ block_size
  pub kv_heads : 0 < made.0.meta.num_kv_heads
  pub grouped : made.0.meta.num_attention_heads % made.0.meta.num_kv_heads ≡ 0
  pub rope : Spans made.0.meta.head_dim made.0.meta.max_position_embeddings made.0.rope

module _ (f : Floats) (num_blocks block_size : ℕ) where
  new_model-Ready :
      (c : HfConfig) (name : String) (meta : ModelMetadata) (w : ModelWeights)
      → Normalized c name meta
      → WeightsShaped meta w (ffn_dim c)
      → Gives (Ready num_blocks block_size) (new_model f meta w num_blocks block_size)
  unfolding new_model new
  new_model-Ready c name meta w n ws =
      Gives-bind (new_rope-Gives f meta.head_dim meta.max_position_embeddings meta.rope_theta _)
        λ rope spans. gives (record {
          ffn = ffn_dim c;
          weights = ws;
          store = record {
            sized = new-Sized _ _ _ _ _;
            num_layers = refl;
            num_blocks = refl;
            block_size = refl;
            num_kv_heads = refl;
            head_dim = refl;
          };
          block_size_is = refl;
          kv_heads = subst (λ m. 0 < m.num_kv_heads) n.metadata n.acceptable.num_kv_heads;
          grouped =
              subst (λ m. m.num_attention_heads % m.num_kv_heads ≡ 0) n.metadata
                n.acceptable.grouped;
          rope = spans;
        })

  module _ {S : Type 0} (fmt : Format S) (checks : Checks fmt) where
    from_directory-Ready :
        (read_config : Loaded HfConfig) (name : String) (exists : Bool)
        (listing : Loaded (List String))
        → Gives
            (Ready num_blocks block_size)
            (from_directory f fmt read_config name exists listing num_blocks block_size)
    unfolding from_directory
    from_directory-Ready read_config name exists listing = Gives-after read_config λ c.
        Gives-after (detect c) λ arch.
          Gives-bind (Gives-when (to_metadata c name) (Normalized-of c name)) λ meta n.
            Gives-after (open_dir fmt name exists listing) λ l.
              Gives-bind (load_weights-WeightsShaped fmt checks l c meta arch)
                λ w ws. new_model-Ready c name meta w n ws

    -- Where the file format checks the size of each tensor: a model that `from_directory` gives
    -- with a block size above zero, and whose hidden size is above zero, answers each batch that
    -- fits it with its new arena. Whatever the files hold that the loader accepted, `forward`
    -- returns without an error and without a panic, with one row of logits for each sequence of
    -- the batch.
    pub from_directory-Answers :
        (read_config : Loaded HfConfig) (name : String) (exists : Bool)
        (listing : Loaded (List String)) (m : TransformerModel) (kv : KvStore)
        (batch : ForwardBatch)
        → from_directory f fmt read_config name exists listing num_blocks block_size
          ≡ loaded (m, kv)
        → 0 < m.meta.hidden_size
        → 0 < block_size
        → BatchFits m num_blocks batch
        → Returns (Answers m num_blocks batch) (forward f m kv batch)
    from_directory-Answers read_config name exists listing m kv batch e hidden blocks b =
        let r = Gives-of (from_directory-Ready read_config name exists listing) e in
        let fits : ModelFits m = record {
          hidden = hidden;
          kv_heads = r.kv_heads;
          grouped = r.grouped;
          block_size = subst (λ n. 0 < n) (sym r.block_size_is) blocks;
          rope = r.rope;
        } in
        forward-Answers f m fits r.ffn num_blocks r.weights kv batch r.store b
