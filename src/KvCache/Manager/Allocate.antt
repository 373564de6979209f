-- ===== src/KvCache/Manager/Allocate.antt =====
-- The loop of `allocate` (crates/orion-kv-cache/src/manager.rs): what one chunk takes, and the run
-- over all chunks, while the pool has a free block for each chunk that is left.
use orion_serve_rs.Prelude.{
  ℕ, suc, ◌+◌, ◌≤◌, ◌<◌, ◌≡◌, refl, ap, ◌∙◌, ◌⊎◌, inl, inr, false, Option, none, some, List, [],
  ◌∷◌, ◌++◌, arith, length, count, count-append, length-append, Option-cases,
}
use orion_serve_rs.Core.Error.{Result, ok, err}
use orion_serve_rs.KvCache.Block.{Block, BlockPool, u32_mod}
use orion_serve_rs.KvCache.Block
use orion_serve_rs.KvCache.Block.Accounts.{
  Accounts, SameShape, bump, allocate-Accounts, add_ref-Accounts, add_ref_unknown,
  set_contents-Accounts, Accounts-cong,
}
use orion_serve_rs.KvCache.Table.{push}
use orion_serve_rs.KvCache.Prefix.{PrefixCache}
use orion_serve_rs.KvCache.Prefix
use orion_serve_rs.KvCache.Manager.{
  AllocLoop, adopt, adopt_found, take_fresh, settle, take_chunk, take_chunks, chunk_hash,
  set_contents_ignoring, drop_evicted,
}

-- The references of the table under construction come on top of those held before the call.
abbrev pub with_table : (ℕ → ℕ) → List ℕ → ℕ → ℕ
with_table refs blocks b = count b blocks + refs b

-- The loop may still take `n` blocks.
pub record Progress (refs : ℕ → ℕ) (n : ℕ) (s : AllocLoop) : Type 0 where
  pub accounts : Accounts s.pool (with_table refs s.table.blocks)
  pub enough : n ≤ length s.pool.free_list
  pub room : (b : ℕ) → count b s.table.blocks + refs b + n < u32_mod

-- The loop took `n` blocks.
pub record Took (n : ℕ) (s t : AllocLoop) : Type 0 where
  pub shape : SameShape s.pool t.pool
  pub length_table : length t.table.blocks ≡ length s.table.blocks + n
  pub outcome : t.outcome.allocated + t.outcome.reused ≡ s.outcome.allocated + s.outcome.reused + n
  pub spent : length s.pool.free_list ≤ length t.pool.free_list + n

bump-push :
    (refs : ℕ → ℕ) (blocks : List ℕ) (id b : ℕ)
    → bump (with_table refs blocks) id b ≡ with_table refs (blocks ++ id ∷ []) b
bump-push refs blocks id b = ground (arith, count-append b blocks (id ∷ []))

pub set_contents_ignoring-Accounts :
    (p : BlockPool) {refs : ℕ → ℕ} (id n : ℕ) (hash : Option ℕ)
    → Accounts p refs
    → Accounts (set_contents_ignoring p id n hash) refs
      × SameShape p (set_contents_ignoring p id n hash)
      × ((set_contents_ignoring p id n hash).free_list ≡ p.free_list)
set_contents_ignoring-Accounts p {refs} id n hash a = go (Block.set_contents p id n hash) refl
  where
    go :
        (r : Result BlockPool)
        → Block.set_contents p id n hash ≡ r
        → Accounts (set_contents_ignoring p id n hash) refs
          × SameShape p (set_contents_ignoring p id n hash)
          × ((set_contents_ignoring p id n hash).free_list ≡ p.free_list)
    go (err e) h = rw (h, set_contents_ignoring) (a, record { size = refl; total = refl }, refl)
    go (ok q) h = rw (h, set_contents_ignoring) (set_contents-Accounts p a id n hash h)

module _ {refs : ℕ → ℕ} {n : ℕ} (s : AllocLoop) (chunk : List ℕ) (g : Progress refs (suc n) s) where
  -- The state after a fresh block.
  fresh : ℕ → Option ℕ → BlockPool → AllocLoop
  fresh blk evicted pool = record s {
    pool = set_contents_ignoring pool blk (length chunk) none;
    prefix_cache = drop_evicted s.prefix_cache evicted blk;
    table = push s.table blk;
    outcome = record (s.outcome) { allocated = s.outcome.allocated + 1 };
    chain = none;
  }

  take_fresh-Took :
      (t : AllocLoop) × (take_fresh s chunk ≡ (none, t)) × Progress refs n t × Took 1 s t
  unfolding take_fresh fresh
  take_fresh-Took =
      let (blk, old, q, e, acc, shape, taken) =
        allocate-Accounts s.pool g.accounts (omega (arith, g.enough)) in
      let (acc', shape', same) = set_contents_ignoring-Accounts q blk (length chunk) none acc in
      (
        fresh blk old q,
        rw (e, take_fresh),
        record {
          accounts = Accounts-cong _ acc' (bump-push refs s.table.blocks blk);
          enough = omega (arith, ap length same, g.enough);
          room = λ b. ground (arith, g.room b, count-append b s.table.blocks (blk ∷ []));
        },
        record {
          shape = record { size = shape'.size ∙ shape.size; total = shape'.total ∙ shape.total };
          length_table = length-append s.table.blocks (blk ∷ []);
          outcome = omega arith;
          spent = omega (arith, ap length same);
        },
      )

-- The state after a block found in the prefix cache.
abbrev adopted : List ℕ → Option ℕ → ℕ → AllocLoop → AllocLoop
adopted chunk hash blk t = record t {
  table = push t.table blk;
  outcome = record (t.outcome) {
    reused = t.outcome.reused + 1;
    cached_tokens = t.outcome.cached_tokens + length chunk;
  };
  chain = hash;
}

-- What a lookup in the prefix cache and `add_ref` come to: nothing, or one more reference.
abbrev Adopts : (ℕ → ℕ) → AllocLoop → Option ℕ × AllocLoop → Type 0
Adopts refs s r =
    ((c : PrefixCache) × (r ≡ (none, record s { prefix_cache = c })))
    ⊎ ((c : PrefixCache) × (blk : ℕ) × (q : BlockPool) × (r
          ≡ (some blk, record s { prefix_cache = c; pool = q }))
        × Accounts q (bump (with_table refs s.table.blocks) blk)
        × SameShape s.pool q
        × (length s.pool.free_list ≤ suc (length q.free_list)))

module _ {refs : ℕ → ℕ} {n : ℕ} (s : AllocLoop) (g : Progress refs (suc n) s) where
  adopt_found-Adopts :
      (h : ℕ) (found : Option ℕ) (c : PrefixCache) → Adopts refs s (adopt_found s h (found, c))
  unfolding adopt_found
  adopt_found-Adopts h none c = inl (c, refl)
  adopt_found-Adopts h (some blk) c = elim (Option-cases (Block.get s.pool blk)) [
    | inl absent ↦ inl (c, rw (add_ref_unknown s.pool blk absent, adopt_found))
    | inr (x, present) ↦
        let (q, e, acc, shape, spent) =
          add_ref-Accounts s.pool g.accounts blk present (omega (arith, g.room blk)) in
        inr (c, blk, q, rw (e, adopt_found), acc, shape, spent)
  ]

  adopt-Adopts : (chunk : List ℕ) (hash : Option ℕ) → Adopts refs s (adopt s chunk hash)
  unfolding adopt
  adopt-Adopts chunk none = inl (s.prefix_cache, refl)
  adopt-Adopts chunk (some h) =
      let (found, c) = Prefix.lookup s.prefix_cache h chunk in adopt_found-Adopts h found c

  -- One round takes one block, in one way or the other.
  take_chunk-Took :
      (block_size : ℕ) (chunk : List ℕ)
      → (t : AllocLoop) × (take_chunk block_size chunk s ≡ (none, t))
        × Progress refs n t
        × Took 1 s t
  unfolding take_chunk settle
  take_chunk-Took block_size chunk =
      let hash = chunk_hash block_size s chunk in
      elim (adopt-Adopts chunk hash) [
        | inl (c, e) ↦
            let s' : AllocLoop = record s { prefix_cache = c; still_matching = false } in
            let g' : Progress refs (suc n) s' = record {
              accounts = g.accounts;
              enough = g.enough;
              room = g.room;
            } in
            let (t, run, left, took) = take_fresh-Took s' chunk g' in
            (
              t,
              rw (e, settle) run,
              left,
              record {
                shape = took.shape;
                length_table = took.length_table;
                outcome = took.outcome;
                spent = took.spent;
              },
            )
        | inr (c, blk, q, e, acc, shape, spent) ↦ (
          adopted chunk hash blk (record s { prefix_cache = c; pool = q }),
          rw (e, settle),
          record {
            accounts = Accounts-cong q acc (bump-push refs s.table.blocks blk);
            enough = omega (arith, g.enough);
            room = λ b. ground (arith, g.room b, count-append b s.table.blocks (blk ∷ []));
          },
          record {
            shape = shape;
            length_table = length-append s.table.blocks (blk ∷ []);
            outcome = omega arith;
            spent = omega arith;
          },
        )
      ]

Took-trans : {n : ℕ} {s t u : AllocLoop} → Took 1 s t → Took n t u → Took (suc n) s u
Took-trans p q = record {
  shape = record { size = q.shape.size ∙ p.shape.size; total = q.shape.total ∙ p.shape.total };
  length_table = omega (arith, p.length_table, q.length_table);
  outcome = omega (arith, p.outcome, q.outcome);
  spent = omega (arith, p.spent, q.spent);
}

-- With a free block for each chunk the loop never fails, and takes one block for each chunk.
pub take_chunks-Took :
    {refs : ℕ → ℕ} (block_size : ℕ) (cs : List (List ℕ)) (s : AllocLoop)
    → Progress refs (length cs) s
    → (t : AllocLoop) × (take_chunks block_size cs s ≡ (none, t))
      × Progress refs 0 t
      × Took (length cs) s t
unfolding take_chunks
take_chunks-Took block_size [] s g = (
  s,
  refl,
  g,
  record {
    shape = record { size = refl; total = refl };
    length_table = omega arith;
    outcome = omega arith;
    spent = omega arith;
  },
)
take_chunks-Took block_size (c ∷ cs) s g =
    let (t, run, left, took) = take_chunk-Took s g block_size c in
    let (u, rest, left', took') = take_chunks-Took block_size cs t left in
    (u, rw run rest, left', Took-trans took took')
