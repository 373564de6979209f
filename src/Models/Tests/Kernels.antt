-- ===== src/Models/Tests/Kernels.antt =====
-- The cache, the attention and the quantization (crates/orion-models) on small inputs.

use orion_serve_rs.Prelude.{
  ℕ, ◌≡◌, ◌↔◌, refl, true, false, List, [], ◌∷◌, arith, if◌then◌else◌, length,
}
use orion_serve_rs.Models.Run.{returned, Returns}
use orion_serve_rs.Models.Loaded.{loaded}
use orion_serve_rs.Models.Store.{KvStore, write, slot_offset, check_bounds}
use orion_serve_rs.Models.Store.Offsets.{Sized, Slot}
use orion_serve_rs.Models.Store.Access.{read_at, write_at, slot_eq, read_at-write_at}
use orion_serve_rs.Models.Attention.{AttentionArgs, paged_attention}
use orion_serve_rs.Models.Attention.Dense.{dense_attention, paged_attention-dense_attention}
use orion_serve_rs.Models.Attention.Total.{Covers, Covers-Caches, stored}
use orion_serve_rs.Models.Quantization.{int8, int4, QuantFloats, pack, unpack, quantize, dequantize}
use orion_serve_rs.Models.Quantization.Packing.{unpack-pack}
use orion_serve_rs.Models.Quantization.Groups.{Quantized, quantize-Quantized}
use orion_serve_rs.Models.Quantization.Constant.{dequantize-quantize_same}
use orion_serve_rs.Models.Config.{to_metadata}
use orion_serve_rs.Models.Config.Described.{Described, to_metadata_iff}
use orion_serve_rs.Models.Transformer.Layer.{ModelFits, WeightsShaped, StoreFits}
use orion_serve_rs.Models.Transformer.Forward.{forward}
use orion_serve_rs.Models.Transformer.Forward.Total.{Answers, forward-Answers}
use orion_serve_rs.Models.Transformer.Forward.Logits.{HasRow, forward-HasRow}
use orion_serve_rs.Models.Tests.{floats, config, model, arena, batch, batch-BatchFits}

-- The key of slot 1 in block 1, and the value beside it.
abbrev key_slot : Slot
key_slot = record { layer = 0; block = 1; slot = 1; head = 0; is_value = false }

abbrev value_slot : Slot
value_slot = record { layer = 0; block = 1; slot = 1; head = 0; is_value = true }

abbrev vector : List ℕ
vector = 5 ∷ 6 ∷ []

abbrev written : KvStore
written = record arena {
  elements = 0 ∷ 0 ∷ 0 ∷ 0 ∷ 0 ∷ 0 ∷ 0 ∷ 0 ∷ 0 ∷ 0 ∷ 5 ∷ 6 ∷ 0 ∷ 0 ∷ 0 ∷ 0 ∷ [];
}

run_write : write_at arena key_slot vector ≡ returned written
unfolding write check_bounds slot_offset
run_write = refl

arena-Sized : Sized arena
arena-Sized = record { size = refl }

read_at-write_at_example :
    read_at written value_slot
    ≡ (if slot_eq key_slot value_slot then returned vector else read_at arena value_slot)
read_at-write_at_example =
    read_at-write_at arena written key_slot value_slot vector arena-Sized run_write

abbrev args : AttentionArgs
args = record {
  block_table = 1 ∷ [];
  context_len = 2;
  query_position = 1;
  layer = 0;
  num_query_heads = 1;
  num_kv_heads = 1;
  head_dim = 2;
  block_size = 2;
}

args-Covers : Covers written args
args-Covers = record {
  sized = record { size = refl };
  layer_lt = omega arith;
  kv_heads = refl;
  head_dim = refl;
  block_size = refl;
  positive = omega arith;
  reaches = omega arith;
  known = (omega arith, tt);
}

paged_attention-dense_attention_example :
    paged_attention floats written vector args (length vector)
    ≡ returned (
        dense_attention floats args vector
          (stored written args args-Covers false)
          (stored written args args-Covers true))
paged_attention-dense_attention_example =
    paged_attention-dense_attention floats written args (stored written args args-Covers false)
      (stored written args args-Covers true) (Covers-Caches written args args-Covers) vector
      (record { query_length = refl; kv_heads = omega arith; grouped = refl })

model-ModelFits : ModelFits model
model-ModelFits = record {
  hidden = omega arith;
  kv_heads = omega arith;
  grouped = refl;
  block_size = omega arith;
  rope = record { cos = refl; sin = refl; head_dim = refl; max_positions = refl };
}

model-WeightsShaped : WeightsShaped model.meta model.weights 2
model-WeightsShaped = record {
  embed_tokens = record { size = refl; rows = refl; cols = refl };
  num_layers = refl;
  layers = (
    record {
      input_norm = refl;
      q_proj = record { size = refl; rows = refl; cols = refl };
      k_proj = record { size = refl; rows = refl; cols = refl };
      v_proj = record { size = refl; rows = refl; cols = refl };
      o_proj = record { size = refl; rows = refl; cols = refl };
      q_bias = refl;
      k_bias = refl;
      v_bias = refl;
      post_attn_norm = refl;
      gate_proj = record { size = refl; rows = refl; cols = refl };
      up_proj = record { size = refl; rows = refl; cols = refl };
      down_proj = record { size = refl; rows = refl; cols = refl };
    },
    tt,
  );
  final_norm = refl;
  head = record { size = refl; rows = refl; cols = refl };
}

arena-StoreFits : StoreFits model 2 arena
arena-StoreFits = record {
  sized = record { size = refl };
  num_layers = refl;
  num_blocks = refl;
  block_size = refl;
  num_kv_heads = refl;
  head_dim = refl;
}

forward-Answers_example : Returns (Answers model 2 batch) (forward floats model arena batch)
forward-Answers_example =
    forward-Answers floats model model-ModelFits 2 2 model-WeightsShaped arena batch arena-StoreFits
      batch-BatchFits

forward-HasRow_example :
    Returns (λ answer. HasRow model.meta.vocab_size 0 answer.0) (forward floats model arena batch)
forward-HasRow_example =
    forward-HasRow floats model model-ModelFits 2 2 model-WeightsShaped arena batch 0
      arena-StoreFits batch-BatchFits (omega arith) (omega arith)

-- An odd number of values of four bits.
abbrev small_values : List ℕ
small_values = 1 ∷ 15 ∷ 7 ∷ []

run_pack : pack small_values int4 ≡ 241 ∷ 7 ∷ []
unfolding pack
run_pack = refl

unpack-pack_example : unpack (pack small_values int4) int4 (length small_values) ≡ small_values
unpack-pack_example = unpack-pack small_values int4 (omega arith, (omega arith, (omega arith, tt)))

-- The difference of equal bits is zero.
abbrev quant_floats : QuantFloats
quant_floats = record {
  sub = λ a b. 0;
  div = λ a b. a;
  mul = λ a b. a;
  neg = λ a. a;
  of_i32 = λ n. n;
  round_as_i32 = λ a. a;
}

-- 1.0, three times.
abbrev ones : List ℕ
ones = 1065353216 ∷ 1065353216 ∷ 1065353216 ∷ []

quantize-Quantized_example :
    Returns (Quantized quant_floats ones int8) (quantize quant_floats ones int8)
quantize-Quantized_example = quantize-Quantized quant_floats ones int8 refl

dequantize-quantize_same_example :
    Returns (λ t. dequantize quant_floats t ≡ ones) (quantize quant_floats ones int4)
dequantize-quantize_same_example =
    dequantize-quantize_same quant_floats 1065353216 (omega arith) refl refl ones int4
      (refl, (refl, (refl, tt)))

to_metadata_iff_example :
    (to_metadata config "tiny" ≡ loaded model.meta) ↔ Described config "tiny" model.meta
to_metadata_iff_example = to_metadata_iff config "tiny" model.meta
