-- ===== src/KvCache/Manager/Release.antt =====
-- `free` and `preempt` (crates/orion-kv-cache/src/manager.rs): a sequence gives its blocks back.
use orion_serve_rs.Prelude.{
  ℕ, ◌≤◌, ◌≡◌, false, refl, sym, ap, ◌∙◌, inl, inr, none, some, List, [], ◌∷◌, arith, if◌then◌else◌,
  ◌==◌, length, Option-cases, ==_refl,
}
use orion_serve_rs.Prelude.Assoc
use orion_serve_rs.Core.Error.{ok}
use orion_serve_rs.KvCache.Block.{BlockPool}
use orion_serve_rs.KvCache.Block.Accounts.{
  Accounts, SameShape, ref_at, bump, Accounts-cong, release-Accounts,
}
use orion_serve_rs.KvCache.Block.Free.{unreferenced, num_free-unreferenced}
use orion_serve_rs.KvCache.Table.{BlockTable}
use orion_serve_rs.KvCache.Manager.{
  KvCacheManager, AllocationOutcome, block_table, blocks_needed_for, is_allocated, free_blocks,
  allocate, release_all, free,
}
use orion_serve_rs.KvCache.Manager.Allocate.{with_table}
use orion_serve_rs.KvCache.Manager.Accounts.{
  refs, IsValid, HasRoom, Allocated, allocate-total, remove-Covered,
}

-- Held references are all released, and no release fails.
pub release_all-Accounts :
    {refs : ℕ → ℕ} (blocks : List ℕ) (p : BlockPool)
    → Accounts p (with_table refs blocks)
    → Accounts (release_all p blocks) refs
      × SameShape p (release_all p blocks)
      × (length p.free_list ≤ length (release_all p blocks).free_list)
unfolding release_all
release_all-Accounts [] p a =
    (Accounts-cong p a (λ b. omega arith), record { size = refl; total = refl }, omega arith)
release_all-Accounts {refs} (b ∷ bs) p a =
    let held = Accounts-cong p a {refs' = bump (with_table refs bs) b} (λ c. omega arith) in
    let (freed, q, e, acc, shape, more, _) = release-Accounts p (with_table refs bs) b held in
    let (acc', shape', more') = release_all-Accounts bs q acc in
    rw (e, release_all)
      (
        acc',
        record { size = shape'.size ∙ shape.size; total = shape'.total ∙ shape.total },
        omega arith,
      )

module _ (m : KvCacheManager) (seq : ℕ) (v : IsValid m) where
  freed-IsValid : (t : BlockTable) → block_table m seq ≡ some t → IsValid (free m seq)
  unfolding free
  freed-IsValid t e =
      let held =
        Accounts-cong m.pool v.accounts
          {refs' = with_table (refs (Assoc.remove seq m.tables)) t.blocks}
          (λ b. sym (Assoc.total-remove _ seq t m.tables v.unique e)) in
      let (acc, shape, _) = release_all-Accounts t.blocks m.pool held in
      rw (e, free)
        (record {
          positive = omega (arith, shape.size, v.positive);
          accounts = acc;
          unique = Assoc.remove-Unique seq m.tables v.unique;
          covered = rw (shape.size) (remove-Covered m.pool.block_size m.tables seq v.covered);
        })

  -- A valid manager stays valid under `free`, whether or not the sequence has a table.
  pub free-IsValid : IsValid (free m seq)
  unfolding free
  free-IsValid = elim (Option-cases (block_table m seq)) [
    | inr (t, e) ↦ freed-IsValid t e
    | inl absent ↦
        rw (absent, free)
          (record {
            positive = v.positive;
            accounts = v.accounts;
            unique = v.unique;
            covered = v.covered;
          })
  ]

-- After `free` the sequence has no table, and every other sequence has the table that it had.
pub block_table-free :
    (m : KvCacheManager) (seq k : ℕ)
    → block_table (free m seq) k ≡ (if seq == k then none else block_table m k)
unfolding free
block_table-free m seq k = elim (Option-cases (block_table m seq)) [
  | inr (t, e) ↦ rw (e, free) (Assoc.lookup-remove seq k m.tables)
  | inl absent ↦ rw (absent, free) (ground (arith, absent))
]

chain_tips-free :
    (m : KvCacheManager) (seq : ℕ) → (free m seq).chain_tips ≡ Assoc.remove seq m.chain_tips
unfolding free
chain_tips-free m seq = elim (Option-cases (block_table m seq)) [
  | inr (t, e) ↦ rw (e, free)
  | inl absent ↦ rw (absent, free)
]

-- A sequence that the manager does not know is no error, and changes nothing.
pub free_absent :
    (m : KvCacheManager) (seq : ℕ)
    → block_table m seq ≡ none
    → Assoc.lookup seq m.chain_tips ≡ none
    → free m seq ≡ m
unfolding free
free_absent m seq absent no_tip =
    rw (absent, free)
      (ap (λ tips. record m { chain_tips = tips }) (Assoc.remove_absent seq m.chain_tips no_tip))

-- Freeing a sequence twice is the same as freeing it once.
pub free_idempotent : (m : KvCacheManager) (seq : ℕ) → free (free m seq) seq ≡ free m seq
free_idempotent m seq =
    free_absent (free m seq) seq (rw block_table-free (rw (==_refl seq)))
      (rw chain_tips-free (rw Assoc.lookup-remove (rw (==_refl seq))))

not_allocated :
    (m : KvCacheManager) (seq : ℕ) → is_allocated m seq ≡ false → block_table m seq ≡ none
not_allocated m seq h = ground arith

-- The tables without that of the sequence, over a pool of the same shape.
pub tables-free :
    (m : KvCacheManager) (seq : ℕ)
    → IsValid m
    → ((free m seq).tables ≡ Assoc.remove seq m.tables) × SameShape m.pool (free m seq).pool
unfolding free
tables-free m seq v = elim (Option-cases (block_table m seq)) [
  | inl absent ↦
      rw (absent, free)
        (sym (Assoc.remove_absent seq m.tables absent), record { size = refl; total = refl })
  | inr (t, e) ↦
      let held =
        Accounts-cong m.pool v.accounts
          {refs' = with_table (refs (Assoc.remove seq m.tables)) t.blocks}
          (λ b. sym (Assoc.total-remove _ seq t m.tables v.unique e)) in
      let (acc, shape, _) = release_all-Accounts t.blocks m.pool held in rw (e, free) (refl, shape)
]

-- For a valid manager in which as many new references as the prompt needs blocks overflow no
-- count, a prompt whose allocation succeeds and that is then freed leaves the tables, the
-- reference count of every block and the number of free blocks as they were.
pub free-allocate :
    (m : KvCacheManager) (seq : ℕ) (prompt : List ℕ) {o : AllocationOutcome} {m' : KvCacheManager}
    → IsValid m
    → HasRoom m (blocks_needed_for m (length prompt))
    → allocate m seq prompt ≡ (ok o, m')
    → ((free m' seq).tables ≡ m.tables)
      × ((b : ℕ) → ref_at (free m' seq).pool.blocks b ≡ ref_at m.pool.blocks b)
      × (free_blocks (free m' seq) ≡ free_blocks m)
free-allocate m seq prompt {o} {m'} v room run = elim (allocate-total m seq prompt v room) [
  | inl (_, e) ↦ absurd (ground arith)
  | inr (inl (_, _, e)) ↦ absurd (ground arith)
  | inr (inr (absent, _, (o', n, e, done))) ↦
      let same : m' ≡ n = ground arith in rw same (restored n o' done (not_allocated m seq absent))
]
  where
    restored :
        (n : KvCacheManager) (o' : AllocationOutcome)
        → Allocated m seq prompt o' n
        → block_table m seq ≡ none
        → ((free n seq).tables ≡ m.tables)
          × ((b : ℕ) → ref_at (free n seq).pool.blocks b ≡ ref_at m.pool.blocks b)
          × (free_blocks (free n seq) ≡ free_blocks m)
    restored n o' done absent =
        let (tables, shape) = tables-free n seq done.valid in
        let back : (free n seq).tables ≡ m.tables =
          tables
          ∙ ap (Assoc.remove seq) done.tables
          ∙ Assoc.remove-insert_new seq done.held.0 m.tables absent in
        let after = (free-IsValid n seq done.valid).accounts in
        let before = v.accounts in
        (
          back,
          (λ b. after.counted b ∙ ap (λ tables. refs tables b) back ∙ sym (before.counted b)),
          num_free-unreferenced (free n seq).pool after
              ∙ ap (λ tables. unreferenced (refs tables) (length (free n seq).pool.blocks)) back
              ∙ ap (unreferenced (refs m.tables)) (shape.total ∙ done.shape.total)
              ∙ sym (num_free-unreferenced m.pool before),
        )
