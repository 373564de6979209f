-- ===== src/KvCache/Store.antt =====
-- crates/orion-kv-cache/src/manager.rs: the manager's state, its statistics and its queries.
use orion_serve_rs.Prelude.{
  ℕ, ◌*◌, Bool, true, false, Option, none, some, List, [], ltb, leb, length,
}
use orion_serve_rs.Prelude.Assoc
use orion_serve_rs.KvCache.Block.{BlockPool}
use orion_serve_rs.KvCache.Block
use orion_serve_rs.KvCache.Table.{BlockTable, blocks_required}
use orion_serve_rs.KvCache.Prefix.{PrefixCache, empty_cache}

pub record AllocationOutcome : Type 0 where
  pub allocated : ℕ
  pub reused : ℕ
  pub cached_tokens : ℕ

abbrev pub had_cache_hit : AllocationOutcome → Bool
had_cache_hit o = ltb 0 o.reused

pub record CacheStats : Type 0 where
  pub total_blocks : ℕ
  pub used_blocks : ℕ
  pub free_blocks : ℕ
  pub block_size : ℕ
  pub num_sequences : ℕ
  pub prefix_cache_entries : ℕ
  pub prefix_cache_hits : ℕ
  pub prefix_cache_misses : ℕ

unfoldable pub token_capacity : CacheStats → ℕ
token_capacity s = s.total_blocks * s.block_size

pub record KvCacheManager : Type 0 where
  pub pool : BlockPool
  pub tables : List (ℕ × BlockTable)
  pub prefix_cache : PrefixCache
  pub prefix_caching_enabled : Bool
  pub chain_tips : List (ℕ × ℕ)

unfoldable pub new : ℕ → ℕ → Bool → KvCacheManager
new num_blocks block_size enabled = record {
  pool = Block.new num_blocks block_size;
  tables = [];
  prefix_cache = empty_cache;
  prefix_caching_enabled = enabled;
  chain_tips = [];
}

abbrev pub free_blocks : KvCacheManager → ℕ
free_blocks m = Block.num_free m.pool

unfoldable pub stats : KvCacheManager → CacheStats
stats m = record {
  total_blocks = Block.total_blocks m.pool;
  used_blocks = Block.num_used m.pool;
  free_blocks = Block.num_free m.pool;
  block_size = m.pool.block_size;
  num_sequences = length m.tables;
  prefix_cache_entries = length m.prefix_cache.entries;
  prefix_cache_hits = m.prefix_cache.hits;
  prefix_cache_misses = m.prefix_cache.misses;
}

abbrev pub block_table : KvCacheManager → ℕ → Option BlockTable
block_table m seq = Assoc.lookup seq m.tables

abbrev pub contains {ℓ} : {A : Type ℓ} → Option A → Bool
contains none = false
contains (some a) = true

abbrev pub is_allocated : KvCacheManager → ℕ → Bool
is_allocated m seq = contains (block_table m seq)

abbrev pub blocks_needed_for : KvCacheManager → ℕ → ℕ
blocks_needed_for m num_tokens = blocks_required num_tokens m.pool.block_size

abbrev pub can_allocate : KvCacheManager → ℕ → Bool
can_allocate m num_tokens = leb (blocks_needed_for m num_tokens) (Block.num_free m.pool)
