-- ===== src/Distributed/Layout.antt =====
-- crates/orion-distributed/src/lib.rs: how the dimensions of a model are split over ranks.
use orion_serve_rs.Prelude.{
  ℕ, zero, suc, ◌+◌, ◌*◌, ◌/◌, ◌%◌, Bool, not, List, if◌then◌else◌, ◌==◌, ltb, leb, length,
}
use orion_serve_rs.Core.Error.{Result, ok, err, invalid_request, internal}
use orion_serve_rs.Core.Model.{ModelMetadata, size_in_bytes}

pub data ShardStrategy : Type 0 where
  column_parallel row_parallel replicated : ShardStrategy

pub record Rank : Type 0 where
  pub index : ℕ
  pub world_size : ℕ

unfoldable pub new : ℕ → ℕ → Result Rank
new index world_size =
    if world_size == 0
    then err (invalid_request "world_size must be at least 1")
    else (if leb world_size index
        then err (invalid_request "rank is out of range for world size")
        else ok (record { index = index; world_size = world_size }))

abbrev pub single : Rank
single = record { index = 0; world_size = 1 }

abbrev pub is_distributed : Rank → Bool
is_distributed r = ltb 1 r.world_size

abbrev pub is_leader : Rank → Bool
is_leader r = r.index == 0

pub record Shard : Type 0 where
  pub start : ℕ
  pub len : ℕ

abbrev pub end : Shard → ℕ
end s = s.start + s.len

abbrev pub is_empty : Shard → Bool
is_empty s = s.len == 0

-- `usize::is_multiple_of`
abbrev pub is_multiple_of : ℕ → ℕ → Bool
is_multiple_of n zero = n == 0
is_multiple_of n (suc m) = (n % suc m) == 0

-- A division by zero panics.
abbrev pub split : ℕ → ℕ → ℕ → Result Shard
split total index zero = err (internal "attempt to divide by zero")
split total index (suc w) = ok (record { start = index * (total / suc w); len = total / suc w })

unfoldable pub shard_dimension : ℕ → Rank → Result Shard
shard_dimension total r =
    if not (is_multiple_of total r.world_size)
    then err (invalid_request "cannot split evenly across ranks")
    else split total r.index r.world_size

pub record ParallelLayout : Type 0 where
  pub rank : Rank
  pub query_heads : Shard
  pub kv_heads : Shard
  pub ffn : Shard

abbrev pub whole : ℕ → Shard
whole n = record { start = 0; len = n }

-- `?`
abbrev pub and_then {ℓ κ} : {A : Type ℓ} {B : Type κ} → Result A → (A → Result B) → Result B
and_then (ok a) rest = rest a
and_then (err e) rest = err e

-- The layout of a distributed rank.
unfoldable pub split_all : ModelMetadata → Rank → ℕ → Result ParallelLayout
unfolding shard_dimension
split_all meta rank ffn_dim = and_then (shard_dimension meta.num_attention_heads rank) (λ q.
    and_then (shard_dimension meta.num_kv_heads rank) (λ kv.
      and_then (shard_dimension ffn_dim rank)
        (λ f. ok (record { rank = rank; query_heads = q; kv_heads = kv; ffn = f }))))

unfoldable pub compute : ModelMetadata → Rank → ℕ → Result ParallelLayout
unfolding split_all
compute meta rank ffn_dim =
    if not (is_distributed rank)
    then ok (record {
      rank = rank;
      query_heads = whole meta.num_attention_heads;
      kv_heads = whole meta.num_kv_heads;
      ffn = whole ffn_dim;
    })
    else (if ltb meta.num_kv_heads rank.world_size
        then err (invalid_request "tensor parallelism beyond the KV head count")
        else split_all meta rank ffn_dim)

abbrev pub local_attention_dim : ParallelLayout → ℕ → ℕ
local_attention_dim l head_dim = l.query_heads.len * head_dim

unfoldable pub local_kv_bytes_per_token : ParallelLayout → ModelMetadata → ℕ
unfolding size_in_bytes
local_kv_bytes_per_token l meta =
    size_in_bytes meta.dtype (2 * meta.num_layers * l.kv_heads.len * meta.head_dim)

-- `SingleRank`: the output buffer after a collective of one rank.
unfoldable pub all_gather : List ℕ → List ℕ → Result (List ℕ)
all_gather local out =
    if not (length local == length out)
    then err (internal "all_gather on a single rank expects equal sizes")
    else ok local

unfoldable pub reduce_scatter_sum : List ℕ → List ℕ → Result (List ℕ)
reduce_scatter_sum input out =
    if not (length input == length out)
    then err (internal "reduce_scatter on a single rank expects equal sizes")
    else ok input
