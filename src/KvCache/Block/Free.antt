-- ===== src/KvCache/Block/Free.antt =====
-- The free pool in numbers (crates/orion-kv-cache/src/block.rs): the free list against
-- the blocks that nobody refers to.
use orion_serve_rs.Prelude.{
  ℕ, zero, suc, ◌+◌, ◌≤◌, ◌<◌, ◌≡◌, refl, sym, ◌∙◌, inl, inr, List, [], ◌∷◌, arith, if◌then◌else◌,
  ◌==◌, length, get_elem?, count, get_elem?_of_lt, lt_of_get_elem?, Option-cases, ltb, leb, ◌&&◌,
}
use orion_serve_rs.KvCache.Block.{
  BlockPool, num_free, num_used, total_blocks, new, new_blocks, range_from,
}
use orion_serve_rs.KvCache.Block.Accounts.{Accounts, ref_at, free_mark}

-- The sum over the numbers below `n`.
abbrev pub sum_below : ℕ → (ℕ → ℕ) → ℕ
sum_below zero f = 0
sum_below (suc n) f = f n + sum_below n f

-- How many of the blocks below `n` nobody refers to.
abbrev pub unreferenced : (ℕ → ℕ) → ℕ → ℕ
unreferenced refs n = sum_below n (λ b. if refs b == 0 then 1 else 0)

sum_below-cong :
    (n : ℕ) (f g : ℕ → ℕ) → ((b : ℕ) → b < n → f b ≡ g b) → sum_below n f ≡ sum_below n g
sum_below-cong zero f g e = refl
sum_below-cong (suc n) f g e =
    omega (arith, e n (omega arith), sum_below-cong n f g (λ b h. e b (omega arith)))

sum_below-add : (n : ℕ) (f g : ℕ → ℕ) → sum_below n (λ b. f b + g b) ≡ sum_below n f + sum_below n g
sum_below-add zero f g = omega arith
sum_below-add (suc n) f g = omega (arith, sum_below-add n f g)

sum_below-zero : (n : ℕ) → sum_below n (λ b. 0) ≡ 0
sum_below-zero zero = refl
sum_below-zero (suc n) = omega (arith, sum_below-zero n)

sum_below-mark : (n x : ℕ) → sum_below n (λ b. if x == b then 1 else 0) ≡ (if ltb x n then 1 else 0)
sum_below-mark zero x = ground arith
sum_below-mark (suc n) x = ground (arith, sum_below-mark n x)

-- A list of numbers below `n` is as long as its counts add up to.
length-eq-sum-count :
    (n : ℕ) (xs : List ℕ)
    → ((b : ℕ) → n ≤ b → count b xs ≡ 0)
    → length xs ≡ sum_below n (λ b. count b xs)
length-eq-sum-count n [] h = sym (sum_below-zero n)
length-eq-sum-count n (x ∷ xs) h = ground (
  arith,
  h x,
  sum_below-mark n x,
  sum_below-add n (λ b. if x == b then 1 else 0) (λ b. count b xs),
  length-eq-sum-count n xs (λ b le. omega (arith, h b le)),
)

-- For a pool whose accounts are right, the length of the free list is the number of blocks of the
-- pool that nobody refers to.
pub num_free-unreferenced :
    (p : BlockPool) {refs : ℕ → ℕ}
    → Accounts p refs
    → num_free p ≡ unreferenced refs (total_blocks p)
num_free-unreferenced p {refs} a =
    length-eq-sum-count n p.free_list outside ∙ sum_below-cong n _ _ inside
  where
    n : ℕ
    n = length p.blocks

    outside : (b : ℕ) → n ≤ b → count b p.free_list ≡ 0
    outside b le = elim (Option-cases (get_elem? p.blocks b)) [
      | inl absent ↦ ground (arith, a.listed b)
      | inr (x, found) ↦ absurd (omega (arith, lt_of_get_elem? p.blocks b found))
    ]

    inside : (b : ℕ) → b < n → count b p.free_list ≡ (if refs b == 0 then 1 else 0)
    inside b lt =
        let (x, found) = get_elem?_of_lt p.blocks b lt in ground (arith, a.listed b, a.counted b)

unreferenced-le : (refs : ℕ → ℕ) (n : ℕ) → unreferenced refs n ≤ n
unreferenced-le refs zero = omega arith
unreferenced-le refs (suc n) = ground (arith, unreferenced-le refs n)

-- For a pool whose accounts are right, `num_used` does not underflow: used and free blocks add up
-- to the pool.
pub num_used-num_free :
    (p : BlockPool) {refs : ℕ → ℕ} → Accounts p refs → num_used p + num_free p ≡ total_blocks p
num_used-num_free p {refs} a =
    omega (arith, num_free-unreferenced p a, unreferenced-le refs (length p.blocks))

pub Unreferenced-cong :
    (refs refs' : ℕ → ℕ) (n : ℕ)
    → ((b : ℕ) → refs b ≡ refs' b)
    → unreferenced refs n ≡ unreferenced refs' n
Unreferenced-cong refs refs' n e = sum_below-cong n _ _ (λ b h. ground (arith, e b))

ref_at-new :
    (i n b : ℕ)
    → (ref_at (new_blocks i n) b ≡ 0) × (free_mark (new_blocks i n) b ≡ (if ltb b n then 1 else 0))
unfolding new_blocks
ref_at-new i zero b = (refl, ground arith)
ref_at-new i (suc n) zero = (refl, ground arith)
ref_at-new i (suc n) (suc b) = ground (arith, ref_at-new (suc i) n b)

count-range_from :
    (i n b : ℕ) → count b (range_from i n) ≡ (if leb i b && ltb b (i + n) then 1 else 0)
unfolding range_from
count-range_from i zero b = ground arith
count-range_from i (suc n) b = ground (arith, count-range_from (suc i) n b)

-- A new pool has no references, and each block on the free list once.
pub new-Accounts : (num_blocks block_size : ℕ) → Accounts (new num_blocks block_size) (λ b. 0)
unfolding new
new-Accounts num_blocks block_size = record {
  counted = λ b. (ref_at-new 0 num_blocks b).0;
  listed = λ b. ground (arith, ref_at-new 0 num_blocks b, count-range_from 0 num_blocks b);
}

pub block_size-new :
    (num_blocks block_size : ℕ) → (new num_blocks block_size).block_size ≡ block_size
unfolding new
block_size-new num_blocks block_size = refl
