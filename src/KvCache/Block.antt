-- ===== src/KvCache/Block.antt =====
-- crates/orion-kv-cache/src/block.rs: physical blocks and the free pool that hands them out.
pub mod Accounts
pub mod Free
use orion_serve_rs.Prelude.{
  ℕ, zero, suc, ◌+◌, ◌-◌, ◌%◌, Bool, true, false, ◌&&◌, Option, none, some, List, [], ◌∷◌, ◌++◌,
  if◌then◌else◌, ltb, ◌==◌, length, get_elem?, set,
}
use orion_serve_rs.Core.Error.{Result, ok, err, cache_exhausted, internal}

-- A hash is a `u64`, a block id a `u32` index into the pool.
pub record Block : Type 0 where
  pub id : ℕ
  pub ref_count : ℕ
  pub num_tokens : ℕ
  pub hash : Option ℕ

abbrev pub u32_mod : ℕ
u32_mod = 4294967296

abbrev pub new_block : ℕ → Block
new_block i = record { id = i; ref_count = 0; num_tokens = 0; hash = none }

abbrev pub is_free : Block → Bool
is_free b = b.ref_count == 0

abbrev pub is_some {ℓ} : {A : Type ℓ} → Option A → Bool
is_some none = false
is_some (some a) = true

unfoldable pub is_shareable : ℕ → Block → Bool
is_shareable block_size b = is_some b.hash && b.num_tokens == block_size

abbrev pub reset : Block → Block
reset b = record b { ref_count = 0; num_tokens = 0; hash = none }

pub record BlockPool : Type 0 where
  pub blocks : List Block
  pub free_list : List ℕ
  pub block_size : ℕ

-- `(i..i + n).map(|i| Block::new(BlockId(i)))`
pub new_blocks : ℕ → ℕ → List Block
new_blocks i zero = []
new_blocks i (suc n) = new_block i ∷ new_blocks (suc i) n

pub range_from : ℕ → ℕ → List ℕ
range_from i zero = []
range_from i (suc n) = i ∷ range_from (suc i) n

unfoldable pub new : ℕ → ℕ → BlockPool
unfolding new_blocks range_from
new num_blocks block_size = record {
  blocks = new_blocks 0 num_blocks;
  free_list = range_from 0 num_blocks;
  block_size = block_size;
}

abbrev pub total_blocks : BlockPool → ℕ
total_blocks p = length p.blocks

abbrev pub num_free : BlockPool → ℕ
num_free p = length p.free_list

abbrev pub num_used : BlockPool → ℕ
num_used p = length p.blocks - length p.free_list

abbrev pub get : BlockPool → ℕ → Option Block
get p id = get_elem? p.blocks id

-- The pool after the write of one block.
abbrev pub put : BlockPool → ℕ → Block → BlockPool
put p id b = record p { blocks = set p.blocks id b }

-- Takes the front of the free list; indexing a block that is not there would panic.
allocate_front : BlockPool → List ℕ → Result (ℕ × Option ℕ × BlockPool)
allocate_front p [] = err (cache_exhausted 1 0)
allocate_front p (id ∷ rest) = elim (get p id) [
  | none ↦ err (internal "index out of bounds")
  | some block ↦ ok (
    id,
    block.hash,
    put (record p { free_list = rest }) id (record (reset block) { ref_count = 1 }),
  )
]

unfoldable pub allocate : BlockPool → Result (ℕ × Option ℕ × BlockPool)
unfolding allocate_front
allocate p = allocate_front p p.free_list

-- Drops the first occurrence.
unfoldable pub remove_from_free_list : List ℕ → ℕ → List ℕ
remove_from_free_list [] id = []
remove_from_free_list (b ∷ bs) id = if b == id then bs else b ∷ remove_from_free_list bs id

unfoldable pub add_ref : BlockPool → ℕ → Result BlockPool
add_ref p id = elim (get p id) [
  | none ↦ err (internal "add_ref on unknown block")
  | some block ↦ ok (record p {
    blocks = set p.blocks id (record block { ref_count = (block.ref_count + 1) % u32_mod });
    free_list = if block.ref_count == 0 then remove_from_free_list p.free_list id else p.free_list;
  })
]

-- The flag says whether the block became free.
release_block : BlockPool → ℕ → Block → Result (Bool × BlockPool)
release_block p id block =
    if block.ref_count == 0
    then err (internal "double release")
    else (let p' = put p id (record block { ref_count = block.ref_count - 1 }) in
        if block.ref_count - 1 == 0
        then ok (true, record p' { free_list = p.free_list ++ id ∷ [] })
        else ok (false, p'))

unfoldable pub release : BlockPool → ℕ → Result (Bool × BlockPool)
unfolding release_block
release p id = elim (get p id) [
  | none ↦ err (internal "release of unknown block")
  | some block ↦ release_block p id block
]

unfoldable pub set_contents : BlockPool → ℕ → ℕ → Option ℕ → Result BlockPool
set_contents p id num_tokens hash =
    if ltb p.block_size num_tokens
    then err (internal "block cannot hold so many tokens")
    else elim (get p id) [
      | none ↦ err (internal "set_contents on unknown block")
      | some block ↦ ok (put p id (record block { num_tokens = num_tokens; hash = hash }))
    ]

-- Whether the block holds cached contents.
abbrev pub hash_at : List Block → ℕ → Option ℕ
hash_at blocks id = elim (get_elem? blocks id) [ none ↦ none | some b ↦ b.hash ]

-- The first free block that holds contents, with its hash.
unfoldable pub find_cached : List Block → List ℕ → Option (ℕ × ℕ)
find_cached blocks [] = none
find_cached blocks (id ∷ ids) = elim (hash_at blocks id) [
  | none ↦ find_cached blocks ids
  | some h ↦ some (id, h)
]

-- The block with its contents forgotten.
abbrev pub forget_at : List Block → ℕ → List Block
forget_at blocks id = elim (get_elem? blocks id) [
  | none ↦ blocks
  | some b ↦ set blocks id (record b { num_tokens = 0; hash = none })
]

unfoldable pub evict_oldest_cached : BlockPool → Option (ℕ × ℕ × BlockPool)
evict_oldest_cached p = elim (find_cached p.blocks p.free_list) [
  | none ↦ none
  | some (id, h) ↦ some (id, h, record p { blocks = forget_at p.blocks id })
]

unfoldable pub num_evictable_in : List Block → List ℕ → ℕ
num_evictable_in blocks [] = 0
num_evictable_in blocks (id ∷ ids) =
    (if is_some (hash_at blocks id) then 1 else 0) + num_evictable_in blocks ids

unfoldable pub num_evictable : BlockPool → ℕ
unfolding num_evictable_in
num_evictable p = num_evictable_in p.blocks p.free_list
