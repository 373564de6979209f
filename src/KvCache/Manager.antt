-- ===== src/KvCache/Manager.antt =====
-- crates/orion-kv-cache/src/manager.rs: publication, growth, release and eviction of cache blocks,
-- with the rest of the manager passed on. A method on `&mut self` returns its result with the manager
-- after it, on the error paths too.
pub mod Chunks
pub mod Allocate
pub mod Accounts
pub mod Release
pub mod Grow
pub mod Publish
pub mod Tables
pub mod Calls
use orion_serve_rs.Prelude.{
  ℕ, zero, suc, ◌+◌, ◌-◌, ◌*◌, Bool, true, false, ◌&&◌, Option, none, some, List, [], ◌∷◌, ◌++◌,
  if◌then◌else◌, ltb, leb, ◌==◌, length, get_elem?, get_last?, take, drop,
}
use orion_serve_rs.Prelude.Assoc
use orion_serve_rs.Core.Error.{EngineError, Result, ok, err, cache_exhausted, internal}
use orion_serve_rs.KvCache.Block.{BlockPool}
use orion_serve_rs.KvCache.Block
use orion_serve_rs.KvCache.Table.{
  BlockTable, empty_table, push, set_num_tokens, blocks_required, hash_block,
}
use orion_serve_rs.KvCache.Prefix.{PrefixCache, empty_cache}
use orion_serve_rs.KvCache.Prefix
pub use orion_serve_rs.KvCache.Store.{
  AllocationOutcome, had_cache_hit, CacheStats, KvCacheManager, free_blocks, block_table, contains,
  is_allocated, blocks_needed_for, can_allocate,
}
unfoldable pub use orion_serve_rs.KvCache.Store.{token_capacity, new, stats}
pub use orion_serve_rs.KvCache.Allocation.{
  AllocLoop, drop_evicted, set_contents_ignoring, chunk_hash, and_then,
}
unfoldable pub use orion_serve_rs.KvCache.Allocation.{
  chunks_from, chunks, adopt_found, adopt, take_fresh, settle, take_chunk, take_chunks, release_all,
  start_loop, finish_allocate, allocate,
}

-- The variables of the loop of `commit_prefill`.
pub record CommitLoop : Type 0 where
  pub pool : BlockPool
  pub prefix_cache : PrefixCache
  pub chain : Option ℕ

-- Publishes one full chunk in the given block.
pub publish : CommitLoop → List ℕ → ℕ → CommitLoop
publish s chunk blk =
    let h = hash_block s.chain chunk in
    record {
      pool = set_contents_ignoring s.pool blk (length chunk) (some h);
      prefix_cache = Prefix.insert s.prefix_cache h blk chunk;
      chain = some h;
    }

-- Ends at a partial chunk, and at the end of the table.
pub commit_chunks : ℕ → List ℕ → ℕ → List (List ℕ) → CommitLoop → CommitLoop
commit_chunks block_size blocks i [] s = s
commit_chunks block_size blocks i (c ∷ cs) s = elim (length c == block_size) [
  | false ↦ s
  | true ↦ elim (get_elem? blocks i) [
    | none ↦ s
    | some blk ↦ commit_chunks block_size blocks (suc i) cs (publish s c blk)
  ]
]

abbrev pub insert_tip : List (ℕ × ℕ) → ℕ → Option ℕ → List (ℕ × ℕ)
insert_tip tips seq none = tips
insert_tip tips seq (some tip) = Assoc.insert seq tip tips

pub start_commit : KvCacheManager → CommitLoop
start_commit m = record { pool = m.pool; prefix_cache = m.prefix_cache; chain = none }

unfoldable pub commit_prefill : KvCacheManager → ℕ → List ℕ → KvCacheManager
unfolding commit_chunks publish start_commit
commit_prefill m seq prompt =
    if m.prefix_caching_enabled
    then elim (block_table m seq) [
      | none ↦ m
      | some table ↦
          let bs = m.pool.block_size in
          let s = commit_chunks bs table.blocks 0 (chunks bs prompt) (start_commit m) in
          record m {
            pool = s.pool;
            prefix_cache = s.prefix_cache;
            chain_tips = insert_tip m.chain_tips seq s.chain;
          }
    ]
    else m

-- The manager with one more block on the table of the sequence, where the last block is full.
pub grow : KvCacheManager → ℕ → BlockTable → Result (BlockTable × KvCacheManager)
grow m seq table =
    if ltb (length table.blocks) (blocks_needed_for m (table.num_tokens + 1))
    then elim (Block.allocate m.pool) [
      | err e ↦ err (cache_exhausted 1 (Block.num_free m.pool))
      | ok (blk, evicted, pool) ↦ ok (
        push table blk,
        record m {
          pool = pool;
          prefix_cache = drop_evicted m.prefix_cache evicted blk;
          tables = Assoc.insert seq (push table blk) m.tables;
        },
      )
    ]
    else ok (table, m)

-- Counts the new token, and records how full the last block is.
pub record_token : KvCacheManager → ℕ → BlockTable → ℕ → Result (Unit {0}) × KvCacheManager
record_token m seq table new_len =
    let m' = record m { tables = Assoc.insert seq (set_num_tokens table new_len) m.tables } in
    elim (get_last? table.blocks) [
      | none ↦ (err (internal "sequence has an empty block table"), m')
      | some last ↦
          elim (Block.set_contents m.pool last
            (new_len - (length table.blocks - 1) * m.pool.block_size) none) [
              | err e ↦ (err e, m')
              | ok pool ↦ (ok tt, record m' { pool = pool })
            ]
    ]

pub finish_append :
    KvCacheManager
    → ℕ
    → ℕ
    → Result (BlockTable × KvCacheManager)
    → Result (Unit {0}) × KvCacheManager
unfolding record_token
finish_append m seq new_len (err e) = (err e, m)
finish_append m seq new_len (ok (table, m')) = record_token m' seq table new_len

unfoldable pub append_token : KvCacheManager → ℕ → Result (Unit {0}) × KvCacheManager
unfolding grow finish_append
append_token m seq = elim (block_table m seq) [
  | none ↦ (err (internal "sequence has no block table"), m)
  | some table ↦ finish_append m seq (table.num_tokens + 1) (grow m seq table)
]

unfoldable pub free : KvCacheManager → ℕ → KvCacheManager
unfolding release_all
free m seq =
    let m' = record m { chain_tips = Assoc.remove seq m.chain_tips } in
    elim (block_table m seq) [
      | none ↦ m'
      | some table ↦ record m' {
        tables = Assoc.remove seq m.tables;
        pool = release_all m.pool table.blocks;
      }
    ]

unfoldable pub preempt : KvCacheManager → ℕ → ℕ × KvCacheManager
preempt m seq = (elim (block_table m seq) [ none ↦ 0 | some t ↦ length t.blocks ], free m seq)

abbrev pub raw_block_table : KvCacheManager → ℕ → Option (List ℕ)
raw_block_table m seq = elim (block_table m seq) [ none ↦ none | some t ↦ some t.blocks ]

-- `while evicted < count`: at most `count` rounds; the number of blocks evicted comes first.
unfoldable pub evict_cached : ℕ → KvCacheManager → ℕ × KvCacheManager
evict_cached zero m = (0, m)
evict_cached (suc count) m = elim (Block.evict_oldest_cached m.pool) [
  | none ↦ (0, m)
  | some (blk, h, pool) ↦
      let (evicted, m') =
        evict_cached count
          (record m { pool = pool; prefix_cache = Prefix.remove m.prefix_cache h blk }) in
      (suc evicted, m')
]

abbrev pub num_evictable : KvCacheManager → ℕ
num_evictable m = Block.num_evictable m.pool

unfoldable pub clear_prefix_cache : KvCacheManager → KvCacheManager
clear_prefix_cache m =
    let m' = (evict_cached (num_evictable m) m).1 in
    record m' { prefix_cache = Prefix.clear m'.prefix_cache }
