-- ===== src/KvCache/Manager/Publish.antt =====
-- `commit_prefill` and the eviction of cached contents (crates/orion-kv-cache/src/manager.rs).
use orion_serve_rs.Prelude.{
  ℕ, zero, suc, ◌≡◌, refl, ap, ◌∙◌, inl, inr, none, some, List, [], ◌∷◌, arith, ◌==◌, length,
  get_elem?, Option-cases, Bool-cases, if_elim,
}
use orion_serve_rs.KvCache.Block.{BlockPool, evict_oldest_cached}
use orion_serve_rs.KvCache.Block.Accounts.{
  Accounts, SameShape, length-forget_at, evict_oldest_cached-Accounts,
}
use orion_serve_rs.KvCache.Manager.{
  KvCacheManager, CommitLoop, block_table, free_blocks, publish, commit_chunks, start_commit,
  insert_tip, commit_prefill, evict_cached, num_evictable, clear_prefix_cache, chunks,
}
use orion_serve_rs.KvCache.Prefix.{PrefixCache}
use orion_serve_rs.KvCache.Prefix
use orion_serve_rs.KvCache.Manager.Allocate.{set_contents_ignoring-Accounts}
use orion_serve_rs.KvCache.Manager.Accounts.{refs, IsValid}

-- Two pools with the same references, shape and free list.
record Keeps (refs : ℕ → ℕ) (p q : BlockPool) : Type 0 where
  accounts : Accounts q refs
  shape : SameShape p q
  free : q.free_list ≡ p.free_list

commit_chunks-Keeps :
    {refs : ℕ → ℕ} (block_size : ℕ) (blocks : List ℕ) (i : ℕ) (cs : List (List ℕ)) (s : CommitLoop)
    → Accounts s.pool refs
    → Keeps refs s.pool (commit_chunks block_size blocks i cs s).pool
unfolding commit_chunks publish
commit_chunks-Keeps block_size blocks i [] s a = record {
  accounts = a;
  shape = record { size = refl; total = refl };
  free = refl;
}
commit_chunks-Keeps {refs} block_size blocks i (c ∷ cs) s a =
    elim (Bool-cases (length c == block_size)) [
      | inr partial ↦
          rw (partial, commit_chunks)
            (record { accounts = a; shape = record { size = refl; total = refl }; free = refl })
      | inl full ↦ elim (Option-cases (get_elem? blocks i)) [
        | inl past_end ↦
            rw (full, commit_chunks)
              (rw past_end (record {
                accounts = a;
                shape = record { size = refl; total = refl };
                free = refl;
              }))
        | inr (blk, found) ↦
            let (acc, shape, same) =
              set_contents_ignoring-Accounts s.pool blk (length c) (publish s c blk).chain a in
            let rest = commit_chunks-Keeps block_size blocks (suc i) cs (publish s c blk) acc in
            rw (full, commit_chunks)
              (rw found (record {
                accounts = rest.accounts;
                shape = record {
                  size = rest.shape.size ∙ shape.size;
                  total = rest.shape.total ∙ shape.total;
                };
                free = rest.free ∙ same;
              }))
      ]
    ]

Keeps-IsValid :
    (m : KvCacheManager) (q : BlockPool) (c : PrefixCache) (tips : List (ℕ × ℕ))
    → IsValid m
    → Keeps (refs m.tables) m.pool q
    → IsValid (record m { pool = q; prefix_cache = c; chain_tips = tips })
Keeps-IsValid m q c tips v k = record {
  positive = omega (arith, k.shape.size, v.positive);
  accounts = k.accounts;
  unique = v.unique;
  covered = rw (k.shape.size) (v.covered);
}

-- What the operations on the prefix cache keep.
abbrev pub Kept : KvCacheManager → KvCacheManager → Type 0
Kept m m' = IsValid m' × (m'.tables ≡ m.tables) × (free_blocks m' ≡ free_blocks m)

-- A valid manager stays valid under `commit_prefill`, with prefix caching on or off, and keeps its
-- tables and the number of its free blocks.
pub commit_prefill-IsValid :
    (m : KvCacheManager) (seq : ℕ) (prompt : List ℕ)
    → IsValid m
    → Kept m (commit_prefill m seq prompt)
unfolding commit_prefill start_commit
commit_prefill-IsValid m seq prompt v =
    if_elim (Kept m) m.prefix_caching_enabled (λ on. published) (λ off. (v, refl, refl))
  where
    published : Kept m (elim (block_table m seq) [
      | none ↦ m
      | some table ↦
          let bs = m.pool.block_size in
          let s = commit_chunks bs table.blocks 0 (chunks bs prompt) (start_commit m) in
          record m {
            pool = s.pool;
            prefix_cache = s.prefix_cache;
            chain_tips = insert_tip m.chain_tips seq s.chain;
          }
    ])
    published = elim (Option-cases (block_table m seq)) [
      | inl absent ↦ rw absent (v, refl, refl)
      | inr (t, e) ↦
          let bs = m.pool.block_size in
          let k =
            commit_chunks-Keeps bs t.blocks 0 (chunks bs prompt) (start_commit m) v.accounts in
          rw e (Keeps-IsValid m _ _ _ v k, refl, ap length k.free)
    ]

-- A valid manager stays valid under `evict_cached`, for any count, and keeps its tables and the
-- number of its free blocks.
pub evict_cached-IsValid :
    (count : ℕ) (m : KvCacheManager) → IsValid m → Kept m (evict_cached count m).1
unfolding evict_cached
evict_cached-IsValid zero m v = (v, refl, refl)
evict_cached-IsValid (suc count) m v = elim (Option-cases (evict_oldest_cached m.pool)) [
  | inl done ↦ rw (done, evict_cached) (v, refl, refl)
  | inr ((blk, h, q), found) ↦
      let (acc, same, blocks, size) = evict_oldest_cached-Accounts m.pool v.accounts found in
      let c = Prefix.remove m.prefix_cache h blk in
      let shape : SameShape m.pool q = record {
        size = size;
        total = ap length blocks ∙ length-forget_at m.pool.blocks blk;
      } in
      let k : Keeps (refs m.tables) m.pool q = record {
        accounts = acc;
        shape = shape;
        free = same;
      } in
      let (v', tables, free) =
        evict_cached-IsValid count (record m { pool = q; prefix_cache = c })
          (Keeps-IsValid m q c m.chain_tips v k) in
      rw (found, evict_cached) (v', tables, free ∙ ap length same)
]

-- A valid manager stays valid under `clear_prefix_cache`, and keeps its tables and the number of
-- its free blocks.
pub clear_prefix_cache-IsValid : (m : KvCacheManager) → IsValid m → Kept m (clear_prefix_cache m)
unfolding clear_prefix_cache
clear_prefix_cache-IsValid m v =
    let (v', tables, free) = evict_cached-IsValid (num_evictable m) m v in
    (
      record {
        positive = v'.positive;
        accounts = v'.accounts;
        unique = v'.unique;
        covered = v'.covered;
      },
      tables,
      free,
    )
