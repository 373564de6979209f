-- ===== src/KvCache/Manager/Grow.antt =====
-- `append_token` (crates/orion-kv-cache/src/manager.rs): room for one more token.
use orion_serve_rs.Prelude.{
  ℕ, zero, suc, ◌+◌, ◌-◌, ◌*◌, ◌≤◌, ◌<◌, ◌≡◌, refl, sym, ◌∙◌, ◌≢◌, ◌⊎◌, inl, inr, Option, none,
  some, List, [], ◌∷◌, ◌++◌, arith, ltb, length, count, get_last?, get_elem?, count-append,
  length-append, Option-cases, Bool-cases, ltb→lt, ltb→ge, ==_refl,
}
use orion_serve_rs.Prelude.Assoc
use orion_serve_rs.Prelude.Assoc.{Unique}
use orion_serve_rs.Core.Error.{ok, err, internal, cache_exhausted}
use orion_serve_rs.KvCache.Block.{Block, BlockPool, u32_mod, set_contents}
use orion_serve_rs.KvCache.Block
use orion_serve_rs.KvCache.Block.Accounts.{
  Accounts, SameShape, bump, Accounts-cong, allocate-Accounts, allocate_empty,
  set_contents-Accounts,
}
use orion_serve_rs.KvCache.Table.{BlockTable, push, set_num_tokens, blocks_required}
use orion_serve_rs.KvCache.Manager.{
  KvCacheManager, block_table, free_blocks, blocks_needed_for, drop_evicted, grow, record_token,
  append_token,
}
use orion_serve_rs.KvCache.Manager.Chunks.{blocks_required-suc, blocks_required_least}
use orion_serve_rs.KvCache.Manager.Accounts.{refs, IsValid, insert-Covered_others}

count-get_last? : (xs : List ℕ) (b : ℕ) → get_last? xs ≡ some b → 0 < count b xs
count-get_last? [] b e = absurd (ground arith)
count-get_last? (x ∷ []) b e = ground arith
count-get_last? (x ∷ y ∷ xs) b e = ground (arith, count-get_last? (y ∷ xs) b)

get_last?_of_pos : (xs : List ℕ) → 0 < length xs → (b : ℕ) × (get_last? xs ≡ some b)
get_last?_of_pos [] h = absurd (omega arith)
get_last?_of_pos (x ∷ []) h = (x, refl)
get_last?_of_pos (x ∷ y ∷ xs) h = get_last?_of_pos (y ∷ xs) (omega arith)

-- A block of a table is a block of the pool.
in_pool :
    (p : BlockPool) (tables : List (ℕ × BlockTable)) (seq b : ℕ) (t : BlockTable)
    → Accounts p (refs tables)
    → Unique tables
    → Assoc.lookup seq tables ≡ some t
    → 0 < count b t.blocks
    → (x : Block) × (get_elem? p.blocks b ≡ some x)
in_pool p tables seq b t a u e held = elim (Option-cases (get_elem? p.blocks b)) [
  | inr found ↦ found
  | inl absent ↦
      absurd
        (ground (arith, a.counted b, Assoc.total-remove (λ t. count b t.blocks) seq t tables u e))
]

set_contents_ok :
    (p : BlockPool) (id n : ℕ) (hash : Option ℕ) {x : Block}
    → get_elem? p.blocks id ≡ some x
    → n ≤ p.block_size
    → (q : BlockPool) × (set_contents p id n hash ≡ ok q)
unfolding set_contents
set_contents_ok p id n hash {x} e h =
    (Block.put p id (record x { num_tokens = n; hash = hash }), ground arith)

-- What the last of `n` blocks holds, when the tokens fit all of them.
filled_le : (tokens n size : ℕ) → 0 < n → tokens ≤ n * size → tokens - (n - 1) * size ≤ size
filled_le tokens zero size pos h = absurd (omega arith)
filled_le tokens (suc n) size pos h =
    let tail : suc n - 1 ≡ n = omega arith in rw tail (grind arith)

-- The manager in the middle of `append_token`: the table has room for the new token.
record Grown (m : KvCacheManager) (seq : ℕ) (t t' : BlockTable) (m' : KvCacheManager) : Type 0 where
  size : m'.pool.block_size ≡ m.pool.block_size
  accounts : Accounts m'.pool (refs m'.tables)
  unique : Unique m'.tables
  held : block_table m' seq ≡ some t'
  others : (k : ℕ) → k ≢ seq → block_table m' k ≡ block_table m k
  enough : length t'.blocks ≡ blocks_needed_for m (t.num_tokens + 1)
  tokens : t'.num_tokens ≡ t.num_tokens
  blocks : (t'.blocks ≡ t.blocks) ⊎ ((b : ℕ) × (t'.blocks ≡ t.blocks ++ b ∷ []))

-- The outcome of a successful call.
pub record Appended (m : KvCacheManager) (seq : ℕ) (t : BlockTable) (m' : KvCacheManager)
    : Type 0 where
  pub valid : IsValid m'
  pub held :
      (t' : BlockTable) × (block_table m' seq ≡ some t')
      × (t'.num_tokens ≡ t.num_tokens + 1)
      × ((t'.blocks ≡ t.blocks) ⊎ ((b : ℕ) × (t'.blocks ≡ t.blocks ++ b ∷ [])))
  pub others : (k : ℕ) → k ≢ seq → block_table m' k ≡ block_table m k

module _ (m : KvCacheManager) (seq : ℕ) (t : BlockTable) (v : IsValid m)
    (e : block_table m seq ≡ some t) where
  needs : blocks_required t.num_tokens m.pool.block_size ≡ length t.blocks
  needs = sym (v.covered seq t e)

  in_place : blocks_needed_for m (t.num_tokens + 1) ≤ length t.blocks → Grown m seq t t m
  in_place le = record {
    size = refl;
    accounts = v.accounts;
    unique = v.unique;
    held = e;
    others = λ k ne. refl;
    enough = omega (arith, needs, blocks_required-suc t.num_tokens m.pool.block_size v.positive);
    tokens = refl;
    blocks = inl refl;
  }

  after : ℕ → Option ℕ → BlockPool → KvCacheManager
  after blk old q = record m {
    pool = q;
    prefix_cache = drop_evicted m.prefix_cache old blk;
    tables = Assoc.insert seq (push t blk) m.tables;
  }

  extended :
      (blk : ℕ) (old : Option ℕ) (q : BlockPool)
      → Accounts q (bump (refs m.tables) blk)
      → SameShape m.pool q
      → length t.blocks < blocks_needed_for m (t.num_tokens + 1)
      → Grown m seq t (push t blk) (after blk old q)
  unfolding after
  extended blk old q acc shape lt = record {
    size = shape.size;
    accounts = Accounts-cong q acc (λ b. ground (
      arith,
      Assoc.total-insert_old (λ u. count b u.blocks) seq (push t blk) t m.tables e,
      count-append b t.blocks (blk ∷ []),
    ));
    unique = Assoc.insert-Unique seq (push t blk) m.tables v.unique;
    held = rw Assoc.lookup-insert (rw (==_refl seq));
    others = λ k ne. rw Assoc.lookup-insert (ground arith);
    enough = omega (
      arith,
      needs,
      blocks_required-suc t.num_tokens m.pool.block_size v.positive,
      length-append t.blocks (blk ∷ []),
    );
    tokens = refl;
    blocks = inr (blk, refl);
  }

  grow-Grown :
      ((length t.blocks < blocks_needed_for m (t.num_tokens + 1))
        × (free_blocks m ≡ 0)
        × (grow m seq t ≡ err (cache_exhausted 1 0)))
      ⊎ ((t' : BlockTable) × (m' : KvCacheManager) × (grow m seq t ≡ ok (t', m'))
          × Grown m seq t t' m')
  unfolding grow after
  grow-Grown = elim (Bool-cases (ltb (length t.blocks) (blocks_needed_for m (t.num_tokens + 1)))) [
    | inr roomy ↦ inr (
      t,
      m,
      rw roomy,
      in_place (ltb→ge (length t.blocks) (blocks_needed_for m (t.num_tokens + 1)) roomy),
    )
    | inl full ↦ elim (Bool-cases (ltb 0 (free_blocks m))) [
      | inr empty ↦
          let none_free : free_blocks m ≡ 0 = omega (arith, ltb→ge 0 (free_blocks m) empty) in
          inl (
            ltb→lt _ _ full,
            none_free,
            rw full (rw (allocate_empty m.pool none_free) (rw none_free)),
          )
      | inl some_free ↦
          let (blk, old, q, run, acc, shape, _) =
            allocate-Accounts m.pool v.accounts (ltb→lt 0 (free_blocks m) some_free) in
          inr (
            push t blk,
            after blk old q,
            rw (full, run),
            extended blk old q acc shape (ltb→lt _ _ full),
          )
    ]
  ]

  last_fits :
      (blocks : List ℕ) (bs : ℕ)
      → 0 < length blocks
      → blocks_needed_for m (t.num_tokens + 1) ≤ length blocks
      → bs ≡ m.pool.block_size
      → t.num_tokens + 1 - (length blocks - 1) * bs ≤ bs
  last_fits blocks bs pos enough same = rw same (
      filled_le (t.num_tokens + 1) (length blocks) m.pool.block_size pos (
        (blocks_required_least (t.num_tokens + 1) m.pool.block_size (length blocks) v.positive).1
          enough))

  record_token-Appended :
      (t' : BlockTable) (m' : KvCacheManager)
      → Grown m seq t t' m'
      → (m'' : KvCacheManager) × (record_token m' seq t' (t.num_tokens + 1) ≡ (ok tt, m''))
        × Appended m seq t m''
  unfolding record_token
  record_token-Appended t' m' g =
      let new_len : ℕ = t.num_tokens + 1 in
      let bs : ℕ = m'.pool.block_size in
      let pos : 0 < length t'.blocks =
        omega (arith, g.enough, blocks_required-suc t.num_tokens m.pool.block_size v.positive) in
      let (last, is_last) = get_last?_of_pos t'.blocks pos in
      let (x, found) =
        in_pool m'.pool m'.tables seq last t' g.accounts g.unique g.held
          (count-get_last? t'.blocks last is_last) in
      let (q, run) =
        set_contents_ok m'.pool last (new_len - (length t'.blocks - 1) * bs) none found
          (last_fits (t'.blocks) bs pos (omega (arith, g.enough)) g.size) in
      let (acc, shape, _) = set_contents-Accounts m'.pool g.accounts last _ none run in
      let table : BlockTable = set_num_tokens t' new_len in
      let tables : List (ℕ × BlockTable) = Assoc.insert seq table m'.tables in
      (
        record m' { pool = q; tables = tables },
        rw (is_last, record_token) (rw run),
        record {
          valid = record {
            positive = omega (arith, shape.size, g.size, v.positive);
            accounts = Accounts-cong q acc (λ b. omega (
              arith,
              Assoc.total-insert_old (λ u. count b u.blocks) seq table t' m'.tables g.held,
            ));
            unique = Assoc.insert-Unique seq table m'.tables g.unique;
            covered =
                rw (shape.size, g.size)
                  (insert-Covered_others m.pool.block_size m'.tables seq table
                    (λ k u ne found. v.covered k u (sym (g.others k ne) ∙ found)) g.enough);
          };
          held = (table, rw Assoc.lookup-insert (rw (==_refl seq)), refl, g.blocks);
          others = λ k ne. rw Assoc.lookup-insert (ground (arith, g.others k ne));
        },
      )

-- For a valid manager, `append_token` has three outcomes: the sequence has no table, and the call
-- fails and leaves the manager as it was; a block is needed and none is free, and the call fails
-- and leaves the manager as it was; or it succeeds, the table counts one token more, with the same
-- blocks or one block more at its end, every other table is as before and the manager stays valid.
pub append_token-total :
    (m : KvCacheManager) (seq : ℕ)
    → IsValid m
    → ((block_table m seq ≡ none)
        × (append_token m seq ≡ (err (internal "sequence has no block table"), m)))
      ⊎ ((t : BlockTable) × (block_table m seq ≡ some t)
          × (((length t.blocks < blocks_needed_for m (t.num_tokens + 1))
                × (free_blocks m ≡ 0)
                × (append_token m seq ≡ (err (cache_exhausted 1 0), m)))
              ⊎ ((m' : KvCacheManager) × (append_token m seq ≡ (ok tt, m')) × Appended m seq t m')))
unfolding append_token
append_token-total m seq v = elim (Option-cases (block_table m seq)) [
  | inl absent ↦ inl (absent, rw (absent, append_token))
  | inr (t, e) ↦ elim (grow-Grown m seq t v e) [
    | inl (full, empty, run) ↦ inr (t, e, inl (full, empty, rw (e, append_token) (rw run)))
    | inr (t', m', run, g) ↦
        let (m'', run', done) = record_token-Appended m seq t v e t' m' g in
        inr (t, e, inr (m'', rw (e, append_token) (rw run run'), done))
  ]
]
