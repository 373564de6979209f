-- ===== src/KvCache/Tests.antt =====
-- The cache (crates/orion-kv-cache) at a concrete pool of four blocks of two tokens.
use orion_serve_rs.Prelude.{
  ℕ, zero, suc, ◌+◌, ◌≤◌, ◌<◌, ◌≡◌, refl, ◌⊎◌, Bool, true, false, none, some, List, [], ◌∷◌, arith,
  if◌then◌else◌, ◌==◌, length, count,
}
use orion_serve_rs.Core.Error.{ok, err, internal, cache_exhausted}
use orion_serve_rs.KvCache.Block.{Block, BlockPool, u32_mod, num_free, num_used, total_blocks}
use orion_serve_rs.KvCache.Block
use orion_serve_rs.KvCache.Block.Accounts.{
  Accounts, SameShape, ref_at, free_mark, bump, release-Accounts,
}
use orion_serve_rs.KvCache.Block.Free.{new-Accounts}
use orion_serve_rs.KvCache.Table.{BlockTable, blocks_required}
use orion_serve_rs.KvCache.Prefix
use orion_serve_rs.KvCache.Manager.{
  KvCacheManager, AllocationOutcome, block_table, is_allocated, blocks_needed_for, free_blocks,
  allocate, append_token, free, commit_prefill, evict_cached, clear_prefix_cache, chunks,
}
use orion_serve_rs.KvCache.Manager
use orion_serve_rs.KvCache.Manager.Accounts.{
  IsValid, HasRoom, Allocated, allocate-total, allocate-IsValid, new-IsValid,
}
use orion_serve_rs.KvCache.Manager.Grow.{Appended, append_token-total}
use orion_serve_rs.KvCache.Manager.Release.{free-allocate, free-IsValid}
use orion_serve_rs.KvCache.Manager.Publish.{commit_prefill-IsValid}
use orion_serve_rs.KvCache.Manager.Calls.{
  Calls, created, allocated, committed, freed, Calls-IsValid, Calls-free_blocks,
}

-- The pool.

abbrev pool0 : BlockPool
pool0 = Block.new 4 2

pool0-Accounts : Accounts pool0 (λ b. 0)
pool0-Accounts = new-Accounts 4 2

four_free : 0 < length pool0.free_list
unfolding Block.new
four_free = omega arith

abbrev free_block : Block
free_block = record { id = 2; ref_count = 0; num_tokens = 0; hash = none }

abbrev held_block : Block
held_block = record { id = 0; ref_count = 1; num_tokens = 2; hash = some 9 }

-- Block 0 is held once, and block 1 is free.
abbrev pool1 : BlockPool
pool1 = record {
  blocks = held_block ∷ record free_block { id = 1 } ∷ [];
  free_list = 1 ∷ [];
  block_size = 2;
}

abbrev refs1 : ℕ → ℕ
refs1 b = if 0 == b then 1 else 0

pool1-Accounts : Accounts pool1 (bump (λ b. 0) 0)
pool1-Accounts = record { counted = λ b. counts b; listed = λ b. marks b }
  where
    counts : (b : ℕ) → ref_at pool1.blocks b ≡ bump (λ c. 0) 0 b
    counts zero = refl
    counts (suc zero) = refl
    counts (suc (suc b)) = ground arith

    marks : (b : ℕ) → count b pool1.free_list ≡ free_mark pool1.blocks b
    marks zero = refl
    marks (suc zero) = refl
    marks (suc (suc b)) = ground arith

release-Accounts_example :
    (freed : Bool) × (q : BlockPool) × (Block.release pool1 0 ≡ ok (freed, q))
    × Accounts q (λ b. 0)
    × SameShape pool1 q
    × (length q.free_list ≡ length pool1.free_list + 1)
    × (freed ≡ true)
release-Accounts_example = release-Accounts pool1 (λ b. 0) 0 pool1-Accounts

-- The manager.

abbrev m0 : KvCacheManager
m0 = Manager.new 4 2 true

abbrev prompt : List ℕ
prompt = 11 ∷ 12 ∷ 13 ∷ []

m0-IsValid : IsValid m0
m0-IsValid = new-IsValid 4 2 true (omega arith)

m0-HasRoom : HasRoom m0 (blocks_needed_for m0 (length prompt))
unfolding Manager.new Block.new blocks_required
m0-HasRoom = λ b. omega arith

allocate-total_example :
    ((is_allocated m0 7 ≡ true)
      × (allocate m0 7 prompt ≡ (err (internal "sequence already has a block table"), m0)))
    ⊎ ((is_allocated m0 7 ≡ false)
        × (free_blocks m0 < blocks_needed_for m0 (length prompt))
        × (allocate m0 7 prompt
            ≡ (err (cache_exhausted (blocks_needed_for m0 (length prompt)) (free_blocks m0)), m0)))
    ⊎ ((is_allocated m0 7 ≡ false)
        × (blocks_needed_for m0 (length prompt) ≤ free_blocks m0)
        × ((o : AllocationOutcome) × (m' : KvCacheManager) × (allocate m0 7 prompt ≡ (ok o, m'))
            × Allocated m0 7 prompt o m'))
allocate-total_example = allocate-total m0 7 prompt m0-IsValid m0-HasRoom

-- Sequence 7 holds two blocks, the second with room for one token.
abbrev m1 : KvCacheManager
m1 = (allocate m0 7 prompt).1

m1-IsValid : IsValid m1
m1-IsValid = allocate-IsValid m0 7 prompt m0-IsValid m0-HasRoom

cache_runs : Unit {0}
unfolding Manager.new Block.new Block.allocate Block.set_contents blocks_required chunks
    Prefix.lookup allocate append_token free commit_prefill evict_cached clear_prefix_cache
cache_runs = tt

run_allocate : (Manager.raw_block_table m1 7 ≡ some (0 ∷ 1 ∷ [])) × (free_blocks m1 ≡ 2)
unfolding cache_runs
run_allocate = (refl, refl)

append_token-total_example :
    ((block_table m1 7 ≡ none)
      × (append_token m1 7 ≡ (err (internal "sequence has no block table"), m1)))
    ⊎ ((t : BlockTable) × (block_table m1 7 ≡ some t)
        × (((length t.blocks < blocks_needed_for m1 (t.num_tokens + 1))
              × (free_blocks m1 ≡ 0)
              × (append_token m1 7 ≡ (err (cache_exhausted 1 0), m1)))
            ⊎ ((m' : KvCacheManager) × (append_token m1 7 ≡ (ok tt, m')) × Appended m1 7 t m')))
append_token-total_example = append_token-total m1 7 m1-IsValid

free-allocate_example :
    ((free m1 7).tables ≡ m0.tables)
    × ((b : ℕ) → ref_at (free m1 7).pool.blocks b ≡ ref_at m0.pool.blocks b)
    × (free_blocks (free m1 7) ≡ free_blocks m0)
unfolding cache_runs
free-allocate_example =
    free-allocate m0 7 prompt {o = record { allocated = 2; reused = 0; cached_tokens = 0 }}
      {m' = m1} m0-IsValid m0-HasRoom refl

-- The first block is published, and the sequence is gone: one block can be evicted.
abbrev m2 : KvCacheManager
m2 = free (commit_prefill m1 7 prompt) 7

m2-IsValid : IsValid m2
m2-IsValid =
    free-IsValid (commit_prefill m1 7 prompt) 7 (commit_prefill-IsValid m1 7 prompt m1-IsValid).0

-- A sequence is admitted, computed and freed.
h2 : Calls m2
h2 = freed 7 (committed 7 prompt (allocated 7 prompt m0-HasRoom (created 4 2 true (omega arith))))

m2_empty : m2.tables ≡ []
unfolding cache_runs
m2_empty = refl

Calls-IsValid_example : IsValid m2
Calls-IsValid_example = Calls-IsValid h2

Calls-free_blocks_example : free_blocks m2 ≡ Block.total_blocks m2.pool
Calls-free_blocks_example = Calls-free_blocks h2 m2_empty
