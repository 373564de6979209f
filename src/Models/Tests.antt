-- ===== src/Models/Tests.antt =====
-- A small checkpoint (crates/orion-models), loaded and run: one block, one head of two elements, a
-- vocabulary of two tokens, and a cache of two blocks of two slots.
pub mod Kernels
use Prim.Native.String.{String}
use orion_serve_rs.Prelude.{
  ℕ, zero, suc, ◌+◌, ◌*◌, ◌<◌, ◌≡◌, ◌⊎◌, inl, inr, refl, subst, Bool, true, false, ◌&&◌, Option,
  none, some, List, [], ◌∷◌, arith, if◌then◌else◌, ◌==◌, ==_iff, length, replicate,
}
use orion_serve_rs.Core.Model
use orion_serve_rs.Core.Model.{ModelMetadata}
use orion_serve_rs.Core.Batch.{ForwardBatch}
use orion_serve_rs.Runtime.Batch.Total.{Aligned}
use orion_serve_rs.Models.Run.{Returns}
use orion_serve_rs.Models.Loaded.{Loaded, loaded}
use orion_serve_rs.Models.Float.{Floats}
use orion_serve_rs.Models.Store.{KvStore, new}
use orion_serve_rs.Models.Tensor.{Matrix, new_matrix, new_rope}
use orion_serve_rs.Models.Config.{HfConfig, detect, parse_dtype, to_metadata}
use orion_serve_rs.Models.Loader.{
  Dtype, f32, TensorView, Format, find_view, view_to_f32, tensor, matrix, vector, optional_vector,
  open_dir,
}
use orion_serve_rs.Models.Loader.Index.{Checks, SizedView, product, element_size}
use orion_serve_rs.Models.Attention.Total.{some_injective}
use orion_serve_rs.Models.Transformer.{LayerWeights, ModelWeights, TransformerModel}
use orion_serve_rs.Models.Transformer.Load.{load_layer, load_weights, new_model, from_directory}
use orion_serve_rs.Models.Transformer.Load.Answers.{from_directory-Answers}
use orion_serve_rs.Models.Transformer.Forward.{forward}
use orion_serve_rs.Models.Transformer.Forward.Total.{BatchFits, Answers}

-- Some arithmetic; nothing depends on it.
abbrev pub floats : Floats
floats = record {
  add = λ a b. a + b;
  sub = λ a b. a;
  mul = λ a b. a;
  div = λ a b. a;
  neg = λ a. a;
  exp = λ a. 1065353216;
  sqrt = λ a. a;
  powf = λ a b. a;
  cos = λ a. 0;
  sin = λ a. 0;
  of_usize = λ n. n;
  to_f64 = λ a. a;
  of_f64 = λ a. a;
  add_f64 = λ a b. a;
  mul_f64 = λ a b. a;
  div_f64 = λ a b. a;
  sqrt_f64 = λ a. a;
  usize_to_f64 = λ n. n;
}

-- A file is its tensors, and is read where each has as many bytes as it should.
abbrev is_sized : TensorView → Bool
is_sized v = length v.bytes == product v.shape * element_size v.dtype

abbrev all_sized : List (String × TensorView) → Bool
all_sized [] = true
all_sized (t ∷ ts) = is_sized t.1 && all_sized ts

abbrev square : TensorView
square = record { dtype = f32; shape = 2 ∷ 2 ∷ []; bytes = replicate 16 0 }

abbrev row_view : TensorView
row_view = record { dtype = f32; shape = 2 ∷ []; bytes = replicate 8 0 }

abbrev checkpoint : List (String × TensorView)
checkpoint =
    ("model.embed_tokens.weight", square)
    ∷ ("model.layers.0.input_layernorm.weight", row_view)
    ∷ ("model.layers.0.self_attn.q_proj.weight", square)
    ∷ ("model.layers.0.self_attn.k_proj.weight", square)
    ∷ ("model.layers.0.self_attn.v_proj.weight", square)
    ∷ ("model.layers.0.self_attn.o_proj.weight", square)
    ∷ ("model.layers.0.post_attention_layernorm.weight", row_view)
    ∷ ("model.layers.0.mlp.gate_proj.weight", square)
    ∷ ("model.layers.0.mlp.up_proj.weight", square)
    ∷ ("model.layers.0.mlp.down_proj.weight", square)
    ∷ ("model.norm.weight", row_view)
    ∷ []

abbrev fmt : Format (List (String × TensorView))
fmt = record {
  deserialize = λ s. if all_sized s then some s else none;
  open_file = λ path. loaded checkpoint;
  f16_to_f32 = λ a. a;
  bf16_to_f32 = λ a. a;
  usize_to_string = λ i. "0";
}

if_some :
    {A : Type 0} (b : Bool) {v view : A} {rest : Option A}
    → (if b then some v else rest) ≡ some view
    → (v ≡ view) ⊎ (rest ≡ some view)
if_some true e = inl (some_injective e)
if_some false e = inr e

and_parts : (a b : Bool) → (a && b) ≡ true → (a ≡ true) × (b ≡ true)
and_parts true true e = (refl, refl)
and_parts true false e = cc
and_parts false b e = cc

find_view-sized :
    (ts : List (String × TensorView)) (name : String) (view : TensorView)
    → all_sized ts ≡ true
    → find_view ts name ≡ some view
    → SizedView view
find_view-sized [] name view h e = cc
find_view-sized ((n, v) ∷ ts) name view h e =
    let (now, later) = and_parts (is_sized v) (all_sized ts) h in
    elim (if_some _ e) [
      | inl same ↦ subst SizedView same ((==_iff _ _).0 now)
      | inr rest ↦ find_view-sized ts name view later rest
    ]

of_deserialize :
    (s tensors : List (String × TensorView)) (name : String) (view : TensorView) (b : Bool)
    → all_sized s ≡ b
    → (if b then some s else none) ≡ some tensors
    → find_view tensors name ≡ some view
    → SizedView view
of_deserialize s tensors name view true sized is found =
    find_view-sized tensors name view (subst (λ t. all_sized t ≡ true) (some_injective is) sized)
      found
of_deserialize s tensors name view false sized is found = cc

checks : Checks fmt
checks = record {
  sized = λ s tensors name view is found.
      of_deserialize s tensors name view (all_sized s) refl is found;
}

abbrev pub config : HfConfig
config = record {
  architectures = "LlamaForCausalLM" ∷ [];
  model_type = none;
  hidden_size = 2;
  num_hidden_layers = 1;
  num_attention_heads = 1;
  num_key_value_heads = none;
  head_dim = none;
  vocab_size = 2;
  intermediate_size = some 2;
  max_position_embeddings = some 4;
  rope_theta = none;
  rms_norm_eps = none;
  torch_dtype = none;
  eos_token_id = none;
  bos_token_id = none;
  tie_word_embeddings = none;
}

abbrev zero_square : Matrix
zero_square = record { elements = replicate 4 0; rows = 2; cols = 2 }

abbrev meta : ModelMetadata
meta = record {
  architecture = "llama";
  name = "tiny";
  hidden_size = 2;
  num_layers = 1;
  num_attention_heads = 1;
  num_kv_heads = 1;
  head_dim = 2;
  vocab_size = 2;
  max_position_embeddings = 4;
  rope_theta = 1176256512;
  rms_norm_eps = 925353388;
  dtype = Model.f32;
  eos_token_ids = [];
  bos_token_id = none;
}

abbrev layer : LayerWeights
layer = record {
  input_norm = replicate 2 0;
  q_proj = zero_square;
  k_proj = zero_square;
  v_proj = zero_square;
  o_proj = zero_square;
  q_bias = none;
  k_bias = none;
  v_bias = none;
  post_attn_norm = replicate 2 0;
  gate_proj = zero_square;
  up_proj = zero_square;
  down_proj = zero_square;
}

abbrev pub model : TransformerModel
model = record {
  meta = meta;
  weights = record {
    embed_tokens = zero_square;
    layers = layer ∷ [];
    final_norm = replicate 2 0;
    lm_head = none;
  };
  rope = record { cos = replicate 4 0; sin = replicate 4 0; head_dim = 2; max_positions = 4 };
  block_size = 2;
}

abbrev pub arena : KvStore
arena = record {
  elements = replicate 16 0;
  num_layers = 1;
  num_blocks = 2;
  block_size = 2;
  num_kv_heads = 1;
  head_dim = 2;
}

run_from_directory :
    from_directory floats fmt (loaded config) "tiny" true (loaded ("model.safetensors" ∷ [])) 2 2
    ≡ loaded (model, arena)
unfolding from_directory load_weights load_layer new_model new_rope detect to_metadata parse_dtype
    open_dir matrix vector optional_vector tensor view_to_f32 new_matrix new
run_from_directory = refl

-- Two tokens of one sequence, in the second block.
abbrev pub batch : ForwardBatch
batch = record {
  tokens = 1 ∷ 0 ∷ [];
  positions = 0 ∷ 1 ∷ [];
  sequence_ids = 7 ∷ [];
  slot_token_counts = 2 ∷ [];
  context_lens = 2 ∷ [];
  block_tables = (1 ∷ []) ∷ [];
  has_prefill = true;
}

pub batch-BatchFits : BatchFits model 2 batch
batch-BatchFits = record {
  aligned = record { counts = refl; contexts = refl; tables = refl; placed = refl; summed = refl };
  tokens = (omega arith, (omega arith, tt));
  rows = (
    (1 ∷ [], refl, omega arith, (omega arith, tt), omega arith),
    ((1 ∷ [], refl, omega arith, (omega arith, tt), omega arith), tt),
  );
  counts = (omega arith, tt);
}

from_directory-Answers_example : Returns (Answers model 2 batch) (forward floats model arena batch)
from_directory-Answers_example =
    from_directory-Answers floats 2 2 fmt checks (loaded config) "tiny" true
      (loaded ("model.safetensors" ∷ [])) model arena batch run_from_directory (omega arith)
      (omega arith) batch-BatchFits
