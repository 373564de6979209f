-- ===== src/Distributed/Tests.antt =====
-- Layouts (crates/orion-distributed/src/lib.rs) of a model with 32 query heads and 8 key-value heads.
use orion_serve_rs.Prelude.{ℕ, ◌*◌, ◌<◌, ◌≡◌, refl, some, [], ◌∷◌, arith}
use orion_serve_rs.Core.Error.{ok}
use orion_serve_rs.Core.Model.{ModelMetadata, f16}
use orion_serve_rs.Distributed.Layout.{ParallelLayout, shard_dimension, split_all, compute}
use orion_serve_rs.Distributed.Partition.{Owns, rank_of, shard_dimension_partition}
use orion_serve_rs.Distributed.Aligned.{compute_aligned}

abbrev meta : ModelMetadata
meta = record {
  architecture = "llama";
  name = "llama-3-8b";
  hidden_size = 4096;
  num_layers = 32;
  num_attention_heads = 32;
  num_kv_heads = 8;
  head_dim = 128;
  vocab_size = 128256;
  max_position_embeddings = 8192;
  rope_theta = 1224736768;
  rms_norm_eps = 925353388;
  dtype = f16;
  eos_token_ids = 128001 ∷ [];
  bos_token_id = some 128000;
}

abbrev layout : ParallelLayout
layout = record {
  rank = rank_of 3 4;
  query_heads = record { start = 24; len = 8 };
  kv_heads = record { start = 6; len = 2 };
  ffn = record { start = 10752; len = 3584 };
}

run_compute : compute meta (rank_of 3 4) 14336 ≡ ok layout
unfolding compute split_all shard_dimension
run_compute = refl

shard_dimension_partition_example :
    (r : ℕ) × (r < 4) × Owns 32 13 (rank_of r 4) × ((r' : ℕ) → Owns 32 13 (rank_of r' 4) → r ≡ r')
shard_dimension_partition_example = shard_dimension_partition 32 3 13 refl (omega arith)

compute_aligned_example :
    (layout.query_heads.len ≡ 4 * layout.kv_heads.len)
    × (layout.query_heads.start ≡ 4 * layout.kv_heads.start)
compute_aligned_example = compute_aligned meta 3 3 14336 4 layout (omega arith) refl run_compute
