-- ===== src/KvCache/Manager/Calls.antt =====
-- The calls of a manager in any order (crates/orion-kv-cache/src/manager.rs), and the blocks that are
-- left over when every sequence is gone.
use orion_serve_rs.Prelude.{
  ℕ, zero, suc, ◌<◌, ◌≡◌, refl, ap, ◌∙◌, inl, inr, Bool, List, [], arith, length,
}
use orion_serve_rs.KvCache.Block.{total_blocks}
use orion_serve_rs.KvCache.Block.Free.{unreferenced, num_free-unreferenced}
use orion_serve_rs.KvCache.Manager.{
  KvCacheManager, new, allocate, append_token, free, commit_prefill, evict_cached,
  clear_prefix_cache, blocks_needed_for, free_blocks,
}
use orion_serve_rs.KvCache.Manager.Accounts.{refs, IsValid, HasRoom, new-IsValid, allocate-IsValid}
use orion_serve_rs.KvCache.Manager.Grow.{append_token-total}
use orion_serve_rs.KvCache.Manager.Release.{free-IsValid}
use orion_serve_rs.KvCache.Manager.Publish.{
  commit_prefill-IsValid, evict_cached-IsValid, clear_prefix_cache-IsValid,
}

-- The managers that calls lead to; an allocation is made while its references overflow no count.
pub data Calls : KvCacheManager → Type 0 where
  created :
      (num_blocks block_size : ℕ) (enabled : Bool)
      → 0 < block_size
      → Calls (new num_blocks block_size enabled)
  allocated :
      {m : KvCacheManager} (seq : ℕ) (prompt : List ℕ)
      → HasRoom m (blocks_needed_for m (length prompt))
      → Calls m
      → Calls (allocate m seq prompt).1
  appended : {m : KvCacheManager} (seq : ℕ) → Calls m → Calls (append_token m seq).1
  freed : {m : KvCacheManager} (seq : ℕ) → Calls m → Calls (free m seq)
  committed :
      {m : KvCacheManager} (seq : ℕ) (prompt : List ℕ)
      → Calls m
      → Calls (commit_prefill m seq prompt)
  evicted : {m : KvCacheManager} (count : ℕ) → Calls m → Calls (evict_cached count m).1
  cleared : {m : KvCacheManager} → Calls m → Calls (clear_prefix_cache m)

append_token-IsValid : (m : KvCacheManager) (seq : ℕ) → IsValid m → IsValid (append_token m seq).1
append_token-IsValid m seq v = elim (append_token-total m seq v) [
  | inl (_, e) ↦ rw e v
  | inr (_, _, inl (_, _, e)) ↦ rw e v
  | inr (_, _, inr (m', e, done)) ↦ rw e (done.valid)
]

-- After any calls on a new manager of positive block size, in any order, each allocation made
-- while its references overflow no count, the manager is valid: the reference count of a block is
-- the number of its places in the tables, the free list holds just the unreferenced blocks once
-- each, no sequence has two tables, and each table holds exactly the blocks that its tokens need.
pub Calls-IsValid : {m : KvCacheManager} → Calls m → IsValid m
Calls-IsValid (created num_blocks block_size enabled pos) =
    new-IsValid num_blocks block_size enabled pos
Calls-IsValid (allocated {m = m} seq prompt room h) =
    allocate-IsValid m seq prompt (Calls-IsValid h) room
Calls-IsValid (appended {m = m} seq h) = append_token-IsValid m seq (Calls-IsValid h)
Calls-IsValid (freed {m = m} seq h) = free-IsValid m seq (Calls-IsValid h)
Calls-IsValid (committed {m = m} seq prompt h) =
    (commit_prefill-IsValid m seq prompt (Calls-IsValid h)).0
Calls-IsValid (evicted {m = m} count h) = (evict_cached-IsValid count m (Calls-IsValid h)).0
Calls-IsValid (cleared {m = m} h) = (clear_prefix_cache-IsValid m (Calls-IsValid h)).0

unreferenced_all : (n : ℕ) → unreferenced (λ b. 0) n ≡ n
unreferenced_all zero = refl
unreferenced_all (suc n) = omega (arith, unreferenced_all n)

-- After any calls on a new manager of positive block size, in any order, each allocation made
-- while its references overflow no count: where no sequence has a table any more, every block of
-- the pool is free.
pub Calls-free_blocks :
    {m : KvCacheManager} → Calls m → m.tables ≡ [] → free_blocks m ≡ total_blocks m.pool
Calls-free_blocks {m} h none_left =
    num_free-unreferenced m.pool (Calls-IsValid h).accounts
    ∙ ap (λ tables. unreferenced (refs tables) (length m.pool.blocks)) none_left
    ∙ unreferenced_all (length m.pool.blocks)
