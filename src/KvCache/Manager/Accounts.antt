-- ===== src/KvCache/Manager/Accounts.antt =====
-- The accounts of the manager (crates/orion-kv-cache/src/manager.rs): the reference count of each
-- block against the number of places that it has in the block tables.
use orion_serve_rs.Prelude.{
  ℕ, ◌+◌, ◌≤◌, ◌<◌, ◌≡◌, refl, sym, ◌≢◌, ◌⊎◌, inl, inr, Bool, true, false, none, some, List, arith,
  ltb, length, count, Option-cases, Bool-cases, ltb→lt, ltb→ge,
}
use orion_serve_rs.Prelude.Assoc
use orion_serve_rs.Prelude.Assoc.{Unique, total}
use orion_serve_rs.Core.Error.{ok, err, internal, cache_exhausted}
use orion_serve_rs.KvCache.Block.{u32_mod}
use orion_serve_rs.KvCache.Block.Accounts.{Accounts, SameShape, Accounts-cong}
use orion_serve_rs.KvCache.Block.Free.{new-Accounts, block_size-new}
use orion_serve_rs.KvCache.Table.{BlockTable, blocks_required, set_num_tokens}
use orion_serve_rs.KvCache.Manager.{
  KvCacheManager, new, AllocationOutcome, AllocLoop, block_table, is_allocated, blocks_needed_for,
  free_blocks, allocate, chunks, start_loop, finish_allocate,
}
use orion_serve_rs.KvCache.Manager.Chunks.{length-chunks}
use orion_serve_rs.KvCache.Manager.Allocate.{Progress, Took, take_chunks-Took}

-- How often a block stands in the tables.
abbrev pub refs : List (ℕ × BlockTable) → ℕ → ℕ
refs tables b = total (λ t. count b t.blocks) tables

-- Each table holds just the blocks that its tokens need.
abbrev pub Covered : ℕ → List (ℕ × BlockTable) → Type 0
Covered block_size tables =
    (seq : ℕ) (t : BlockTable)
    → Assoc.lookup seq tables ≡ some t
    → length t.blocks ≡ blocks_required t.num_tokens block_size

pub insert-Covered :
    (block_size : ℕ) (tables : List (ℕ × BlockTable)) (seq : ℕ) (t : BlockTable)
    → Covered block_size tables
    → length t.blocks ≡ blocks_required t.num_tokens block_size
    → Covered block_size (Assoc.insert seq t tables)
insert-Covered block_size tables seq t c h k u e =
    ground (arith, Assoc.lookup-insert seq k t tables, c k u)

-- The rest of the tables are enough to know.
pub insert-Covered_others :
    (block_size : ℕ) (tables : List (ℕ × BlockTable)) (seq : ℕ) (t : BlockTable)
    → ((k : ℕ) (u : BlockTable)
        → k ≢ seq
        → Assoc.lookup k tables ≡ some u
        → length u.blocks ≡ blocks_required u.num_tokens block_size)
    → length t.blocks ≡ blocks_required t.num_tokens block_size
    → Covered block_size (Assoc.insert seq t tables)
insert-Covered_others block_size tables seq t c h k u e =
    ground (arith, Assoc.lookup-insert seq k t tables, c k u)

pub remove-Covered :
    (block_size : ℕ) (tables : List (ℕ × BlockTable)) (seq : ℕ)
    → Covered block_size tables
    → Covered block_size (Assoc.remove seq tables)
remove-Covered block_size tables seq c k u e =
    ground (arith, Assoc.lookup-remove seq k tables, c k u)

pub record IsValid (m : KvCacheManager) : Type 0 where
  pub positive : 0 < m.pool.block_size
  pub accounts : Accounts m.pool (refs m.tables)
  pub unique : Unique m.tables
  pub covered : Covered m.pool.block_size m.tables

-- No reference count overflows when `n` more references are taken.
abbrev pub HasRoom : KvCacheManager → ℕ → Type 0
HasRoom m n = (b : ℕ) → refs m.tables b + n < u32_mod

-- The outcome of a successful allocation.
pub record Allocated (m : KvCacheManager) (seq : ℕ) (prompt : List ℕ) (o : AllocationOutcome)
    (m' : KvCacheManager) : Type 0 where
  pub valid : IsValid m'
  pub held :
      (t : BlockTable) × (block_table m' seq ≡ some t)
      × (length t.blocks ≡ blocks_needed_for m (length prompt))
      × (t.num_tokens ≡ length prompt)
  pub others : (k : ℕ) → k ≢ seq → block_table m' k ≡ block_table m k
  pub tables : m'.tables ≡ Assoc.insert seq held.0 m.tables
  pub outcome : o.allocated + o.reused ≡ blocks_needed_for m (length prompt)
  pub spent : free_blocks m ≤ free_blocks m' + blocks_needed_for m (length prompt)
  pub shape : SameShape m.pool m'.pool

module _ (m : KvCacheManager) (seq : ℕ) (prompt : List ℕ) (v : IsValid m) where
  start-Progress :
      HasRoom m (blocks_needed_for m (length prompt))
      → blocks_needed_for m (length prompt) ≤ free_blocks m
      → Progress (refs m.tables) (length (chunks m.pool.block_size prompt)) (start_loop m)
  unfolding start_loop
  start-Progress room fits = rw (length-chunks m.pool.block_size prompt v.positive) (record {
    accounts = Accounts-cong m.pool v.accounts (λ b. omega arith);
    enough = fits;
    room = λ b. omega (arith, room b);
  })

  finish-Allocated :
      (t : AllocLoop)
      → block_table m seq ≡ none
      → Progress (refs m.tables) 0 t
      → Took (blocks_needed_for m (length prompt)) (start_loop m) t
      → (m' : KvCacheManager) × (finish_allocate m seq (length prompt) (none, t)
          ≡ (ok t.outcome, m'))
        × Allocated m seq prompt t.outcome m'
  unfolding finish_allocate start_loop
  finish-Allocated t absent g took = (
    after,
    refl,
    record {
      valid = record {
        positive = omega (arith, took.shape.size, v.positive);
        accounts =
            Accounts-cong t.pool g.accounts
              (λ b. sym (Assoc.total-insert_new _ seq table m.tables absent));
        unique = Assoc.insert-Unique seq table m.tables v.unique;
        covered =
            rw (took.shape.size)
              (insert-Covered m.pool.block_size m.tables seq table v.covered length_table);
      };
      held = (table, rw Assoc.lookup-insert (ground arith), length_table, refl);
      others = λ k ne. rw Assoc.lookup-insert (ground arith);
      tables = refl;
      outcome = omega (arith, took.outcome);
      spent = took.spent;
      shape = took.shape;
    },
  )
    where
      table : BlockTable
      table = set_num_tokens t.table (length prompt)

      length_table : length table.blocks ≡ blocks_needed_for m (length prompt)
      length_table = omega (arith, took.length_table)

      after : KvCacheManager
      after = record m {
        pool = t.pool;
        prefix_cache = t.prefix_cache;
        tables = Assoc.insert seq table m.tables;
      }

  -- For a valid manager in which as many new references as the prompt needs blocks overflow no
  -- count, `allocate` has three outcomes: the sequence has a table already, and the call fails and
  -- leaves the manager as it was; the free blocks are fewer than the prompt needs, and the call
  -- fails with both numbers and leaves the manager as it was; or it succeeds, the sequence gets a
  -- table of exactly the blocks that the prompt needs, reused and fresh ones adding up to them, at
  -- the cost of at most that many free blocks, every other table is as before and the manager
  -- stays valid.
  pub allocate-total :
      HasRoom m (blocks_needed_for m (length prompt))
      → ((is_allocated m seq ≡ true)
          × (allocate m seq prompt ≡ (err (internal "sequence already has a block table"), m)))
        ⊎ ((is_allocated m seq ≡ false)
            × (free_blocks m < blocks_needed_for m (length prompt))
            × (allocate m seq prompt
                ≡ (err (cache_exhausted (blocks_needed_for m (length prompt)) (free_blocks m)), m)))
        ⊎ ((is_allocated m seq ≡ false)
            × (blocks_needed_for m (length prompt) ≤ free_blocks m)
            × ((o : AllocationOutcome) × (m' : KvCacheManager) × (allocate m seq prompt
                  ≡ (ok o, m'))
                × Allocated m seq prompt o m'))
  unfolding allocate
  allocate-total room = elim (Option-cases (block_table m seq)) [
    | inr (t, e) ↦ inl (rw e, rw e)
    | inl absent ↦ elim (Bool-cases (ltb (free_blocks m) (blocks_needed_for m (length prompt)))) [
      | inl short ↦ inr (inl (rw absent, ltb→lt _ _ short, rw (absent, short)))
      | inr fits ↦
          let le = ltb→ge (free_blocks m) (blocks_needed_for m (length prompt)) fits in
          let (t, run, g, took) = take_chunks-Took m.pool.block_size _ _ (start-Progress room le) in
          let size = length-chunks m.pool.block_size prompt v.positive in
          let (m', e, done) = finish-Allocated t absent g (rw size at took) in
          inr (inr (rw absent, le, (t.outcome, m', rw (absent, fits, run) e, done)))
    ]
  ]

  -- A valid manager in which as many new references as the prompt needs blocks overflow no count
  -- stays valid under `allocate`, on every branch.
  pub allocate-IsValid :
      HasRoom m (blocks_needed_for m (length prompt)) → IsValid (allocate m seq prompt).1
  allocate-IsValid room = elim (allocate-total room) [
    | inl (_, e) ↦ rw e v
    | inr (inl (_, _, e)) ↦ rw e v
    | inr (inr (_, _, (o, m', e, done))) ↦ rw e (done.valid)
  ]

-- A new manager holds nothing.
pub new-IsValid :
    (num_blocks block_size : ℕ) (enabled : Bool)
    → 0 < block_size
    → IsValid (new num_blocks block_size enabled)
unfolding new
new-IsValid num_blocks block_size enabled pos = record {
  positive = rw (block_size-new num_blocks block_size) pos;
  accounts = new-Accounts num_blocks block_size;
  unique = tt;
  covered = λ seq t e. absurd (ground arith);
}
