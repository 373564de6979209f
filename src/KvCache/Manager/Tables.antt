-- ===== src/KvCache/Manager/Tables.antt =====
-- Which sequences have a block table after each method of crates/orion-kv-cache/src/manager.rs,
-- whatever the state of the pool.
use orion_serve_rs.Prelude.{
  ℕ, ◌+◌, ◌≡◌, refl, ◌∙◌, inl, inr, Bool, true, false, Option, none, some, List, arith,
  if◌then◌else◌, ◌==◌, ltb, length, Option-cases, if_elim, ==_refl,
}
use orion_serve_rs.Prelude.Assoc
use orion_serve_rs.Core.Error.{EngineError, Result, ok, err, cache_exhausted}
use orion_serve_rs.Core.Traits.{is_ok}
use orion_serve_rs.KvCache.Block
use orion_serve_rs.KvCache.Table.{BlockTable, push, set_num_tokens}
use orion_serve_rs.KvCache.Manager.{
  KvCacheManager, AllocationOutcome, AllocLoop, block_table, is_allocated, blocks_needed_for,
  free_blocks, contains, allocate, finish_allocate, append_token, finish_append, grow, record_token,
  free, commit_prefill, drop_evicted,
}
use orion_serve_rs.KvCache.Manager.Release.{block_table-free}

-- Who holds a table after a call that may give `seq` one.
abbrev Gains : KvCacheManager → ℕ → ℕ → Bool → KvCacheManager → Type 0
Gains m seq a success m' =
    is_allocated m' a
    ≡ (if success then (if seq == a then true else is_allocated m a) else is_allocated m a)

finish_allocate-Gains :
    (m : KvCacheManager) (seq n a : ℕ) (r : Option EngineError × AllocLoop)
    → Gains m seq a (is_ok (finish_allocate m seq n r).0) (finish_allocate m seq n r).1
unfolding finish_allocate
finish_allocate-Gains m seq n a (none, s) =
    ground (arith, Assoc.lookup-insert seq a (set_num_tokens s.table n) m.tables)
finish_allocate-Gains m seq n a (some e, s) = refl

-- In any state, `allocate` gives a table to its own sequence where it succeeds and to none where
-- it fails, and every other sequence has a table just if it had one.
pub allocate-Gains :
    (m : KvCacheManager) (seq : ℕ) (prompt : List ℕ) (a : ℕ)
    → Gains m seq a (is_ok (allocate m seq prompt).0) (allocate m seq prompt).1
unfolding allocate
allocate-Gains m seq prompt a =
    if_elim Outcome (is_allocated m seq) (λ _. refl)
      (λ _.
        if_elim Outcome (ltb (free_blocks m) (blocks_needed_for m (length prompt))) (λ _. refl)
          (λ _. finish_allocate-Gains m seq (length prompt) a _))
  where
    Outcome : Result AllocationOutcome × KvCacheManager → Type 0
    Outcome r = Gains m seq a (is_ok r.0) r.1

-- A write to the table of a sequence that has one.
rewrite_table :
    (tables : List (ℕ × BlockTable)) (seq a : ℕ) (t u : BlockTable)
    → Assoc.lookup seq tables ≡ some u
    → contains (Assoc.lookup a (Assoc.insert seq t tables)) ≡ contains (Assoc.lookup a tables)
rewrite_table tables seq a t u e = ground (arith, Assoc.lookup-insert seq a t tables)

record_token-is_allocated :
    (m : KvCacheManager) (seq : ℕ) (t : BlockTable) (n a : ℕ) {u : BlockTable}
    → block_table m seq ≡ some u
    → is_allocated (record_token m seq t n).1 a ≡ is_allocated m a
unfolding record_token
record_token-is_allocated m seq t n a {u} e =
    ground (arith, rewrite_table m.tables seq a (record t { num_tokens = n }) u e)

-- The manager after `grow`, where it succeeds.
abbrev Grew : KvCacheManager → ℕ → ℕ → Result (BlockTable × KvCacheManager) → Type 0
Grew m seq a (err e) = Unit
Grew m seq a (ok (t, m')) =
    (is_allocated m' a ≡ is_allocated m a) × ((u : BlockTable) × (block_table m' seq ≡ some u))

grow-Grew :
    (m : KvCacheManager) (seq : ℕ) (t : BlockTable) (a : ℕ)
    → block_table m seq ≡ some t
    → Grew m seq a (grow m seq t)
unfolding grow
grow-Grew m seq t a e =
    if_elim (Grew m seq a) (ltb (length t.blocks) (blocks_needed_for m (t.num_tokens + 1)))
      (λ _. extended (Block.allocate m.pool)) (λ _. (refl, (t, e)))
  where
    extended :
        (r : Result (ℕ × Option ℕ × Block.BlockPool))
        → Grew m seq a (elim r [
          | err e ↦ err (cache_exhausted 1 (Block.num_free m.pool))
          | ok (blk, evicted, pool) ↦ ok (
            push t blk,
            record m {
              pool = pool;
              prefix_cache = drop_evicted m.prefix_cache evicted blk;
              tables = Assoc.insert seq (push t blk) m.tables;
            },
          )
        ])
    extended (err _) = tt
    extended (ok (blk, evicted, pool)) = (
      rewrite_table m.tables seq a (push t blk) t e,
      (push t blk, Assoc.lookup-insert seq seq (push t blk) m.tables ∙ rw (==_refl seq)),
    )

finish_append-is_allocated :
    (m : KvCacheManager) (seq n a : ℕ) (r : Result (BlockTable × KvCacheManager))
    → Grew m seq a r
    → is_allocated (finish_append m seq n r).1 a ≡ is_allocated m a
unfolding finish_append
finish_append-is_allocated m seq n a (err e) g = refl
finish_append-is_allocated m seq n a (ok (t, m')) (same, (u, held)) =
    record_token-is_allocated m' seq t n a held ∙ same

-- In any state, a sequence has a table after `append_token`, whether it succeeds or fails, just if
-- it had one before.
pub append_token-is_allocated :
    (m : KvCacheManager) (seq a : ℕ) → is_allocated (append_token m seq).1 a ≡ is_allocated m a
unfolding append_token
append_token-is_allocated m seq a = elim (Option-cases (block_table m seq)) [
  | inl absent ↦ rw (absent, append_token)
  | inr (t, e) ↦
      rw (e, append_token)
        (finish_append-is_allocated m seq (t.num_tokens + 1) a (grow m seq t)
          (grow-Grew m seq t a e))
]

pub free-is_allocated :
    (m : KvCacheManager) (seq a : ℕ)
    → is_allocated (free m seq) a ≡ (if seq == a then false else is_allocated m a)
free-is_allocated m seq a = ground (arith, block_table-free m seq a)

pub commit_prefill-is_allocated :
    (m : KvCacheManager) (seq : ℕ) (prompt : List ℕ) (a : ℕ)
    → is_allocated (commit_prefill m seq prompt) a ≡ is_allocated m a
unfolding commit_prefill
commit_prefill-is_allocated m seq prompt a = ground arith
