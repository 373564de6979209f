-- ===== src/KvCache/Block/Accounts.antt =====
-- The accounts of the pool (crates/orion-kv-cache/src/block.rs): reference counts against
-- the references that the owner of the pool holds, and the free list against the unreferenced blocks.
use orion_serve_rs.Prelude.{
  ℕ, suc, ◌+◌, ◌-◌, ◌%◌, ◌≤◌, ◌<◌, ◌≡◌, refl, ◌∙◌, inl, inr, Bool, Option, none, some, List, [],
  ◌∷◌, ◌++◌, arith, if◌then◌else◌, ◌==◌, length, get_elem?, set, count, count-append, length-set,
  length-append, get_elem?-set, Option-cases,
}
use orion_serve_rs.Core.Error.{ok, err, internal, cache_exhausted}
use orion_serve_rs.KvCache.Block.{
  Block, BlockPool, u32_mod, reset, put, allocate, allocate_front, add_ref, release, release_block,
  set_contents, remove_from_free_list, forget_at, evict_oldest_cached,
}

-- The reference count of a block, 0 outside the pool.
abbrev pub ref_at : List Block → ℕ → ℕ
ref_at blocks b = elim (get_elem? blocks b) [ none ↦ 0 | some x ↦ x.ref_count ]

-- How often the free list must hold a block.
abbrev pub free_mark : List Block → ℕ → ℕ
free_mark blocks b = elim (get_elem? blocks b) [
  | none ↦ 0
  | some x ↦ if x.ref_count == 0 then 1 else 0
]

-- One more reference to a block.
abbrev pub bump : (ℕ → ℕ) → ℕ → ℕ → ℕ
bump refs id b = (if id == b then 1 else 0) + refs b

pub record Accounts (p : BlockPool) (refs : ℕ → ℕ) : Type 0 where
  pub counted : (b : ℕ) → ref_at p.blocks b ≡ refs b
  pub listed : (b : ℕ) → count b p.free_list ≡ free_mark p.blocks b

-- What an operation on the pool leaves alone.
pub record SameShape (p q : BlockPool) : Type 0 where
  pub size : q.block_size ≡ p.block_size
  pub total : length q.blocks ≡ length p.blocks

count-remove :
    (xs : List ℕ) (id b : ℕ)
    → 0 < count id xs
    → (if id == b then 1 else 0) + count b (remove_from_free_list xs id) ≡ count b xs
unfolding remove_from_free_list
count-remove [] id b h = absurd (omega arith)
count-remove (x ∷ xs) id b h = ground (arith, count-remove xs id b)

length-remove : (xs : List ℕ) (id : ℕ) → length xs ≤ suc (length (remove_from_free_list xs id))
unfolding remove_from_free_list
length-remove [] id = omega arith
length-remove (x ∷ xs) id = ground (arith, length-remove xs id)

module _ (p : BlockPool) {refs : ℕ → ℕ} (a : Accounts p refs) where
  -- The front of the free list is an unreferenced block of the pool.
  front_free :
      (id : ℕ) (rest : List ℕ)
      → p.free_list ≡ id ∷ rest
      → (x : Block) × (get_elem? p.blocks id ≡ some x) × (x.ref_count ≡ 0)
  front_free id rest e = elim (Option-cases (get_elem? p.blocks id)) [
    | inl absent ↦ absurd (ground (arith, a.listed id))
    | inr (x, found) ↦ (x, found, ground (arith, a.listed id))
  ]

  allocate_front-Accounts :
      (xs : List ℕ)
      → p.free_list ≡ xs
      → 0 < length xs
      → (id : ℕ) × (old : Option ℕ) × (q : BlockPool) × (allocate_front p xs ≡ ok (id, old, q))
        × Accounts q (bump refs id)
        × SameShape p q
        × (suc (length q.free_list) ≡ length xs)
  unfolding allocate_front
  allocate_front-Accounts [] e h = absurd (omega arith)
  allocate_front-Accounts (id ∷ rest) e h =
      let (x, found, zero_refs) = front_free id rest e in
      (
        id,
        x.hash,
        taken x,
        rw (found, allocate_front),
        record {
          counted = λ b. ground (arith, a.counted b, get_elem?-set p.blocks id b (one x) found);
          listed = λ b. ground (arith, a.listed b, e, get_elem?-set p.blocks id b (one x) found);
        },
        record { size = refl; total = length-set p.blocks id (one x) },
        refl,
      )
    where
      one : Block → Block
      one x = record (reset x) { ref_count = 1 }

      taken : Block → BlockPool
      taken x = put (record p { free_list = rest }) id (one x)

  -- For a pool whose accounts are right and that has a free block, `allocate` succeeds, the
  -- accounts are right with one more reference to the block returned, and the free list is one
  -- shorter.
  pub allocate-Accounts :
      0 < length p.free_list
      → (id : ℕ) × (old : Option ℕ) × (q : BlockPool) × (allocate p ≡ ok (id, old, q))
        × Accounts q (bump refs id)
        × SameShape p q
        × (suc (length q.free_list) ≡ length p.free_list)
  unfolding allocate
  allocate-Accounts h = allocate_front-Accounts p.free_list refl h

  -- For a pool whose accounts are right and a block of it whose count does not overflow, `add_ref`
  -- succeeds, the accounts are right with one more reference to the block, and the free list is at
  -- most one shorter.
  pub add_ref-Accounts :
      (id : ℕ) {x : Block}
      → get_elem? p.blocks id ≡ some x
      → suc (refs id) < u32_mod
      → (q : BlockPool) × (add_ref p id ≡ ok q)
        × Accounts q (bump refs id)
        × SameShape p q
        × (length p.free_list ≤ suc (length q.free_list))
  unfolding add_ref
  add_ref-Accounts id {x} found room = (
    after,
    rw (found, add_ref),
    record {
      counted = λ b. ground (arith, a.counted b, a.counted id, get_elem?-set p.blocks id b y found);
      listed = λ b. ground (
        arith,
        a.listed b,
        a.listed id,
        a.counted id,
        get_elem?-set p.blocks id b y found,
        count-remove p.free_list id b,
      );
    },
    record { size = refl; total = length-set p.blocks id y },
    ground (arith, length-remove p.free_list id),
  )
    where
      y : Block
      y = record x { ref_count = (x.ref_count + 1) % u32_mod }

      after : BlockPool
      after = record p {
        blocks = set p.blocks id y;
        free_list = if x.ref_count == 0 then remove_from_free_list p.free_list id else p.free_list;
      }

allocate_front_empty :
    (p : BlockPool) (xs : List ℕ) → length xs ≡ 0 → allocate_front p xs ≡ err (cache_exhausted 1 0)
unfolding allocate_front
allocate_front_empty p [] h = refl
allocate_front_empty p (x ∷ xs) h = absurd (omega arith)

pub allocate_empty :
    (p : BlockPool) → length p.free_list ≡ 0 → allocate p ≡ err (cache_exhausted 1 0)
unfolding allocate
allocate_empty p h = allocate_front_empty p p.free_list h

pub add_ref_unknown :
    (p : BlockPool) (id : ℕ)
    → get_elem? p.blocks id ≡ none
    → add_ref p id ≡ err (internal "add_ref on unknown block")
unfolding add_ref
add_ref_unknown p id e = rw (e, add_ref)

module _ (p : BlockPool) (refs : ℕ → ℕ) (id : ℕ) (a : Accounts p (bump refs id)) where
  held : (x : Block) × (get_elem? p.blocks id ≡ some x) × (x.ref_count ≡ suc (refs id))
  held = elim (Option-cases (get_elem? p.blocks id)) [
    | inl absent ↦ absurd (ground (arith, a.counted id))
    | inr (x, found) ↦ (x, found, ground (arith, a.counted id))
  ]

  -- For a pool whose accounts count a reference to the block, `release` succeeds, the accounts are
  -- right without that reference, and the block joins the free list, as the flag says, just when
  -- it was the last one.
  pub release-Accounts :
      (freed : Bool) × (q : BlockPool) × (release p id ≡ ok (freed, q))
      × Accounts q refs
      × SameShape p q
      × (length q.free_list ≡ length p.free_list + (if refs id == 0 then 1 else 0))
      × (freed ≡ (refs id == 0))
  unfolding release release_block
  release-Accounts =
      let (x, found, refs_x) = held in
      (
        refs id == 0,
        after x,
        rw (found, release) (ground arith),
        record {
          counted = λ b.
              ground (arith, a.counted b, a.counted id, get_elem?-set p.blocks id b (y x) found);
          listed = λ b. ground (
            arith,
            a.listed b,
            a.counted b,
            get_elem?-set p.blocks id b (y x) found,
            count-append b p.free_list (id ∷ []),
          );
        },
        record { size = refl; total = length-set p.blocks id (y x) },
        ground (arith, length-append p.free_list (id ∷ [])),
        refl,
      )
    where
      y : Block → Block
      y x = record x { ref_count = x.ref_count - 1 }

      after : Block → BlockPool
      after x = record p {
        blocks = set p.blocks id (y x);
        free_list = if refs id == 0 then p.free_list ++ id ∷ [] else p.free_list;
      }

module _ (p : BlockPool) {refs : ℕ → ℕ} (a : Accounts p refs) where
  -- A write that keeps the block's reference count keeps the accounts.
  write-Accounts :
      (id : ℕ) (y : Block) {x : Block}
      → get_elem? p.blocks id ≡ some x
      → y.ref_count ≡ x.ref_count
      → Accounts (put p id y) refs
  write-Accounts id y found same = record {
    counted = λ b. ground (arith, a.counted b, get_elem?-set p.blocks id b y found);
    listed = λ b. ground (arith, a.listed b, get_elem?-set p.blocks id b y found);
  }

  -- Recording contents changes no reference and no place on the free list.
  pub set_contents-Accounts :
      (id n : ℕ) (hash : Option ℕ) {q : BlockPool}
      → set_contents p id n hash ≡ ok q
      → Accounts q refs × SameShape p q × (q.free_list ≡ p.free_list)
  unfolding set_contents
  set_contents-Accounts id n hash {q} e = elim (Option-cases (get_elem? p.blocks id)) [
    | inl absent ↦ absurd (ground arith)
    | inr (x, found) ↦
        let y : Block = record x { num_tokens = n; hash = hash } in
        let written : q ≡ put p id y = ground arith in
        rw written (
          write-Accounts id y found refl,
          record { size = refl; total = length-set p.blocks id y },
          refl,
        )
  ]

  forget_at-Accounts : (id : ℕ) → Accounts (record p { blocks = forget_at p.blocks id }) refs
  forget_at-Accounts id = elim (Option-cases (get_elem? p.blocks id)) [
    | inl absent ↦ rw (absent, forget_at) a
    | inr (x, found) ↦
        rw (found, forget_at)
          (write-Accounts id (record x { num_tokens = 0; hash = none }) found refl)
  ]

  -- Eviction forgets contents only.
  pub evict_oldest_cached-Accounts :
      {id h : ℕ} {q : BlockPool}
      → evict_oldest_cached p ≡ some (id, h, q)
      → Accounts q refs
        × (q.free_list ≡ p.free_list)
        × (q.blocks ≡ forget_at p.blocks id)
        × (q.block_size ≡ p.block_size)
  unfolding evict_oldest_cached
  evict_oldest_cached-Accounts {id} {h} {q} e =
      let shape : q ≡ record p { blocks = forget_at p.blocks id } = ground arith in
      rw shape (forget_at-Accounts id, refl, refl, refl)

  -- The accounts depend on the counts only.
  pub Accounts-cong : {refs' : ℕ → ℕ} → ((b : ℕ) → refs b ≡ refs' b) → Accounts p refs'
  Accounts-cong {refs'} same = record { counted = λ b. a.counted b ∙ same b; listed = a.listed }

pub length-forget_at : (blocks : List Block) (id : ℕ) → length (forget_at blocks id) ≡ length blocks
length-forget_at blocks id = elim (Option-cases (get_elem? blocks id)) [
  | inl absent ↦ rw (absent, forget_at)
  | inr (x, found) ↦ rw (found, forget_at) (length-set blocks id _)
]
