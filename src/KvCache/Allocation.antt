-- ===== src/KvCache/Allocation.antt =====
-- crates/orion-kv-cache/src/manager.rs: `allocate`, which shares the blocks of a cached prefix and
-- takes fresh ones for the rest. On an error the manager after it is returned too.
use orion_serve_rs.Prelude.{
  ℕ, zero, suc, ◌+◌, Bool, false, ◌&&◌, Option, none, some, List, [], ◌∷◌, if◌then◌else◌, ltb, ◌==◌,
  length, take, drop,
}
use orion_serve_rs.Prelude.Assoc
use orion_serve_rs.Core.Error.{EngineError, Result, ok, err, cache_exhausted, internal}
use orion_serve_rs.KvCache.Block.{BlockPool}
use orion_serve_rs.KvCache.Block
use orion_serve_rs.KvCache.Table.{BlockTable, empty_table, push, set_num_tokens, hash_block}
use orion_serve_rs.KvCache.Prefix.{PrefixCache, empty_cache}
use orion_serve_rs.KvCache.Prefix
use orion_serve_rs.KvCache.Store.{
  AllocationOutcome, KvCacheManager, is_allocated, blocks_needed_for,
}

-- `tokens.chunks(block_size)`: the rounds are bounded by the number of tokens.
unfoldable pub chunks_from : ℕ → ℕ → List ℕ → List (List ℕ)
chunks_from zero block_size tokens = []
chunks_from (suc fuel) block_size [] = []
chunks_from (suc fuel) block_size (t ∷ ts) =
    take block_size (t ∷ ts) ∷ chunks_from fuel block_size (drop block_size (t ∷ ts))

unfoldable pub chunks : ℕ → List ℕ → List (List ℕ)
unfolding chunks_from
chunks block_size tokens = chunks_from (length tokens) block_size tokens

-- The variables of the loop of `allocate`.
pub record AllocLoop : Type 0 where
  pub pool : BlockPool
  pub prefix_cache : PrefixCache
  pub table : BlockTable
  pub outcome : AllocationOutcome
  pub chain : Option ℕ
  pub still_matching : Bool

-- Looks one full chunk up and takes a reference to the block found.
unfoldable pub adopt_found : AllocLoop → ℕ → Option ℕ × PrefixCache → Option ℕ × AllocLoop
adopt_found s h (none, cache) = (none, record s { prefix_cache = cache })
adopt_found s h (some blk, cache) = elim (Block.add_ref s.pool blk) [
  | err e ↦ (none, record s { prefix_cache = cache })
  | ok pool ↦ (some blk, record s { prefix_cache = cache; pool = pool })
]

unfoldable pub adopt : AllocLoop → List ℕ → Option ℕ → Option ℕ × AllocLoop
adopt s chunk none = (none, s)
adopt s chunk (some h) = adopt_found s h (Prefix.lookup s.prefix_cache h chunk)

abbrev pub drop_evicted : PrefixCache → Option ℕ → ℕ → PrefixCache
drop_evicted cache none blk = cache
drop_evicted cache (some h) blk = Prefix.remove cache h blk

-- `let _ = self.pool.set_contents(..)`
abbrev pub set_contents_ignoring : BlockPool → ℕ → ℕ → Option ℕ → BlockPool
set_contents_ignoring pool blk n hash = elim (Block.set_contents pool blk n hash) [
  | err e ↦ pool
  | ok pool' ↦ pool'
]

-- A fresh block for one chunk.
unfoldable pub take_fresh : AllocLoop → List ℕ → Option EngineError × AllocLoop
take_fresh s chunk = elim (Block.allocate s.pool) [
  | err e ↦ (some e, s)
  | ok (blk, evicted, pool) ↦ (
    none,
    record s {
      pool = set_contents_ignoring pool blk (length chunk) none;
      prefix_cache = drop_evicted s.prefix_cache evicted blk;
      table = push s.table blk;
      outcome = record (s.outcome) { allocated = s.outcome.allocated + 1 };
      chain = none;
    },
  )
]

abbrev pub chunk_hash : ℕ → AllocLoop → List ℕ → Option ℕ
chunk_hash block_size s chunk =
    if s.still_matching && (length chunk == block_size)
    then some (hash_block s.chain chunk)
    else none

unfoldable pub settle : List ℕ → Option ℕ → Option ℕ × AllocLoop → Option EngineError × AllocLoop
settle chunk hash (some blk, s) = (
  none,
  record s {
    table = push s.table blk;
    outcome = record (s.outcome) {
      reused = s.outcome.reused + 1;
      cached_tokens = s.outcome.cached_tokens + length chunk;
    };
    chain = hash;
  },
)
settle chunk hash (none, s) = take_fresh (record s { still_matching = false }) chunk

-- One round of the loop.
unfoldable pub take_chunk : ℕ → List ℕ → AllocLoop → Option EngineError × AllocLoop
take_chunk block_size chunk s =
    let hash = chunk_hash block_size s chunk in settle chunk hash (adopt s chunk hash)

-- Goes on with the next chunk, unless a chunk found no block.
abbrev pub and_then :
    Option EngineError × AllocLoop
    → (AllocLoop → Option EngineError × AllocLoop)
    → Option EngineError × AllocLoop
and_then (none, s) rest = rest s
and_then (some e, s) rest = (some e, s)

unfoldable pub take_chunks : ℕ → List (List ℕ) → AllocLoop → Option EngineError × AllocLoop
take_chunks block_size [] s = (none, s)
take_chunks block_size (c ∷ cs) s = and_then (take_chunk block_size c s) (take_chunks block_size cs)

-- Releases each block; a failed release is passed over.
unfoldable pub release_all : BlockPool → List ℕ → BlockPool
release_all pool [] = pool
release_all pool (b ∷ bs) = elim (Block.release pool b) [
  | err e ↦ release_all pool bs
  | ok (freed, pool') ↦ release_all pool' bs
]

unfoldable pub start_loop : KvCacheManager → AllocLoop
start_loop m = record {
  pool = m.pool;
  prefix_cache = m.prefix_cache;
  table = empty_table;
  outcome = record { allocated = 0; reused = 0; cached_tokens = 0 };
  chain = none;
  still_matching = m.prefix_caching_enabled;
}

unfoldable pub finish_allocate :
    KvCacheManager
    → ℕ
    → ℕ
    → Option EngineError × AllocLoop
    → Result AllocationOutcome × KvCacheManager
finish_allocate m seq num_tokens (none, s) = (
  ok s.outcome,
  record m {
    pool = s.pool;
    prefix_cache = s.prefix_cache;
    tables = Assoc.insert seq (set_num_tokens s.table num_tokens) m.tables;
  },
)
finish_allocate m seq num_tokens (some e, s) =
    (err e, record m { pool = release_all s.pool s.table.blocks; prefix_cache = s.prefix_cache })

unfoldable pub allocate : KvCacheManager → ℕ → List ℕ → Result AllocationOutcome × KvCacheManager
unfolding take_chunks take_chunk settle take_fresh adopt adopt_found release_all start_loop
    finish_allocate
allocate m seq prompt =
    if is_allocated m seq
    then (err (internal "sequence already has a block table"), m)
    else (if ltb (Block.num_free m.pool) (blocks_needed_for m (length prompt))
        then (
          err (cache_exhausted (blocks_needed_for m (length prompt)) (Block.num_free m.pool)),
          m,
        )
        else finish_allocate m seq (length prompt)
            (take_chunks m.pool.block_size (chunks m.pool.block_size prompt) (start_loop m)))
