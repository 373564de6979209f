-- ===== src/Models/Transformer/Load/Shapes.antt =====
-- A model that was loaded (crates/orion-models/src/transformer.rs, `ModelWeights::load`, `new` and
-- `from_directory`) has weights of the right shapes and an arena that fits it, and answers.
use Prim.Native.String.{String}
use orion_serve_rs.Prelude.{ℕ, zero, suc, ◌≡◌, refl, ap, false, not, ◌||◌, List, length, All}
use orion_serve_rs.Core.Model.{ModelMetadata}
use orion_serve_rs.Models.Loaded.{Gives, gives, Gives-bind, Gives-if}
use orion_serve_rs.Models.Tensor.{Matrix, wrong_bias}
use orion_serve_rs.Models.Tensor.Shape.{Shaped}
use orion_serve_rs.Models.Config.{HfConfig, Architecture, has_qkv_bias, ffn_dim, ties_embeddings}
use orion_serve_rs.Models.Loader.{Format, CheckpointLoader, contains}
use orion_serve_rs.Models.Loader.Index.{
  Checks, matrix-Shaped, vector-HasLength, optional_vector-HasLength,
}
use orion_serve_rs.Models.Transformer.{LayerWeights, head_or}
use orion_serve_rs.Models.Transformer.Load.{bias, load_layer, load_layers, load_head, load_weights}
use orion_serve_rs.Models.Transformer.Layer.{LayerShaped, WeightsShaped, q_dim, kv_dim}

module _ {S : Type 0} (fmt : Format S) (checks : Checks fmt) (l : CheckpointLoader S) where
  bias-right :
      (arch : Architecture) (name : String) (n : ℕ)
      → Gives (λ b. wrong_bias b n ≡ false) (bias fmt l arch name n)
  bias-right arch name n =
      Gives-if (has_qkv_bias arch) (λ _. optional_vector-HasLength fmt checks l name n)
        (λ _. gives refl)

  load_layer-LayerShaped :
      (arch : Architecture) (meta : ModelMetadata) (ffn i : ℕ)
      → Gives
          (LayerShaped meta ffn)
          (load_layer fmt l arch meta.hidden_size (q_dim meta) (kv_dim meta) ffn i)
  unfolding load_layer
  load_layer-LayerShaped arch meta ffn i =
      let h = meta.hidden_size in
      let matrix_of = matrix-Shaped fmt checks l in
      let vector_of = vector-HasLength fmt checks l in
      Gives-bind (bias-right arch _ (q_dim meta)) λ qb hqb.
        Gives-bind (bias-right arch _ (kv_dim meta)) λ kb hkb.
          Gives-bind (bias-right arch _ (kv_dim meta)) λ vb hvb.
            Gives-bind (vector_of _ h) λ inorm hin. Gives-bind (matrix_of _ (q_dim meta) h) λ q hq.
              Gives-bind (matrix_of _ (kv_dim meta) h) λ k hk.
                Gives-bind (matrix_of _ (kv_dim meta) h) λ v hv.
                  Gives-bind (matrix_of _ h (q_dim meta)) λ o ho.
                    Gives-bind (vector_of _ h) λ post hpost.
                      Gives-bind (matrix_of _ ffn h) λ gate hgate.
                        Gives-bind (matrix_of _ ffn h) λ up hup.
                          Gives-bind (matrix_of _ h ffn) λ down hdown. gives (record {
                            input_norm = hin;
                            q_proj = hq;
                            k_proj = hk;
                            v_proj = hv;
                            o_proj = ho;
                            q_bias = hqb;
                            k_bias = hkb;
                            v_bias = hvb;
                            post_attn_norm = hpost;
                            gate_proj = hgate;
                            up_proj = hup;
                            down_proj = hdown;
                          })

  abbrev LayersShaped : ModelMetadata → ℕ → ℕ → List LayerWeights → Type 0
  LayersShaped meta ffn n ws = (length ws ≡ n) × All (LayerShaped meta ffn) ws

  load_layers-LayersShaped :
      (arch : Architecture) (meta : ModelMetadata) (ffn i n : ℕ)
      → Gives
          (LayersShaped meta ffn n)
          (load_layers fmt l arch meta.hidden_size (q_dim meta) (kv_dim meta) ffn i n)
  load_layers-LayersShaped arch meta ffn i zero = gives (refl, tt)
  load_layers-LayersShaped arch meta ffn i (suc n) =
      Gives-bind (load_layer-LayerShaped arch meta ffn i) λ w hw.
        Gives-bind (load_layers-LayersShaped arch meta ffn (suc i) n)
          λ rest h. gives (ap suc h.0, (hw, h.1))

  load_head-Shaped :
      (config : HfConfig) (meta : ModelMetadata) (table : Matrix)
      → Shaped meta.vocab_size meta.hidden_size table
      → Gives
          (λ h. Shaped meta.vocab_size meta.hidden_size (head_or h table))
          (load_head fmt l config meta)
  load_head-Shaped config meta table s =
      Gives-if (ties_embeddings config || not (contains fmt l "lm_head.weight")) (λ _. gives s)
        λ _.
          Gives-bind (matrix-Shaped fmt checks l "lm_head.weight" meta.vocab_size meta.hidden_size)
            λ m h. gives h

  pub load_weights-WeightsShaped :
      (config : HfConfig) (meta : ModelMetadata) (arch : Architecture)
      → Gives (λ w. WeightsShaped meta w (ffn_dim config)) (load_weights fmt l config meta arch)
  unfolding load_weights
  load_weights-WeightsShaped config meta arch =
      Gives-bind (matrix-Shaped fmt checks l _ meta.vocab_size meta.hidden_size) λ table ht.
        Gives-bind (load_layers-LayersShaped arch meta (ffn_dim config) 0 meta.num_layers)
          λ layers hl. Gives-bind (load_head-Shaped config meta table ht) λ head hh.
            Gives-bind (vector-HasLength fmt checks l _ meta.hidden_size) λ norm hn. gives (record {
              embed_tokens = ht;
              num_layers = hl.0;
              layers = hl.1;
              final_norm = hn;
              head = hh;
            })
