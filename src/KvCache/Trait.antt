-- ===== src/KvCache/Trait.antt =====
-- crates/orion-kv-cache/src/manager.rs: the manager as the cache of the scheduler, and the laws of
-- the trait for it.
use orion_serve_rs.Prelude.{ℕ, ◌≡◌, true, if◌then◌else◌, ◌==◌}
use orion_serve_rs.Core.Error.{Result, ok, err}
use orion_serve_rs.Core.Traits.{KvCacheManagerLike, CacheLaws, is_ok}
use orion_serve_rs.KvCache.Block
use orion_serve_rs.KvCache.Manager.{KvCacheManager, AllocationOutcome, is_allocated}
use orion_serve_rs.KvCache.Manager
use orion_serve_rs.KvCache.Manager.Tables.{
  allocate-Gains, append_token-is_allocated, free-is_allocated, commit_prefill-is_allocated,
}

-- `.map(|_| ())`
abbrev forget_outcome :
    Result AllocationOutcome × KvCacheManager → Result (Unit {0}) × KvCacheManager
forget_outcome (ok o, m) = (ok tt, m)
forget_outcome (err e, m) = (err e, m)

instance abbrev pub manager_like : KvCacheManagerLike KvCacheManager
manager_like = record {
  blocks_needed_for = Manager.blocks_needed_for;
  total_blocks = λ m. Block.total_blocks m.pool;
  free_blocks = Manager.free_blocks;
  can_allocate = Manager.can_allocate;
  allocate = λ m seq prompt. forget_outcome (Manager.allocate m seq prompt);
  append_token = Manager.append_token;
  free = Manager.free;
  commit_prefill = Manager.commit_prefill;
}

pub forget_outcome-Gains :
    (m : KvCacheManager) (seq a : ℕ) (r : Result AllocationOutcome × KvCacheManager)
    → is_allocated r.1 a
      ≡ (if is_ok r.0 then (if seq == a then true else is_allocated m a) else is_allocated m a)
    → is_allocated (forget_outcome r).1 a ≡ (
        if is_ok (forget_outcome r).0
        then (if seq == a then true else is_allocated m a)
        else is_allocated m a)
forget_outcome-Gains m seq a (ok o, m') h = h
forget_outcome-Gains m seq a (err e, m') h = h

-- The manager keeps what the trait documents: a sequence holds blocks if it has a block table.
abbrev pub manager_laws : CacheLaws manager_like
manager_laws = record {
  holds = is_allocated;
  allocate_holds = λ m seq prompt a.
      forget_outcome-Gains m seq a (Manager.allocate m seq prompt) (allocate-Gains m seq prompt a);
  append_token_holds = append_token-is_allocated;
  free_holds = free-is_allocated;
  commit_prefill_holds = commit_prefill-is_allocated;
}
