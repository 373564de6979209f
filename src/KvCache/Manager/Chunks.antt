-- ===== src/KvCache/Manager/Chunks.antt =====
-- How a prompt is cut into blocks (`tokens.chunks(block_size)`, and `BlockTable::blocks_required`
-- of crates/orion-kv-cache/src/table.rs).
use orion_serve_rs.Prelude.{
  ℕ, zero, suc, ◌+◌, ◌-◌, ◌*◌, ◌≤◌, ◌<◌, ◌↔◌, ◌≡◌, refl, sym, ap, ◌∙◌, List, [], ◌∷◌, ◌++◌, arith,
  length, take, drop, length-drop, take-append-drop,
}
use orion_serve_rs.KvCache.Table.{blocks_required}
use orion_serve_rs.KvCache.Manager.{chunks_from, chunks}

-- One block holds the first `block_size` tokens, and the rest is as if the prompt began there.
blocks_required-step :
    (n block_size : ℕ)
    → 0 < block_size
    → blocks_required (suc n) block_size ≡ suc (blocks_required (suc n - block_size) block_size)
unfolding blocks_required
blocks_required-step n block_size h = grind arith

blocks_required-zero : (block_size : ℕ) → 0 < block_size → blocks_required 0 block_size ≡ 0
unfolding blocks_required
blocks_required-zero block_size h = grind arith

length-chunks_from :
    (fuel block_size : ℕ) (tokens : List ℕ)
    → 0 < block_size
    → length tokens ≤ fuel
    → length (chunks_from fuel block_size tokens) ≡ blocks_required (length tokens) block_size
unfolding chunks_from
length-chunks_from zero block_size [] h k = sym (blocks_required-zero block_size h)
length-chunks_from zero block_size (t ∷ ts) h k = absurd (omega arith)
length-chunks_from (suc fuel) block_size [] h k = sym (blocks_required-zero block_size h)
length-chunks_from (suc fuel) block_size (t ∷ ts) h k = omega (
  arith,
  blocks_required-step (length ts) block_size h,
  length-drop block_size (t ∷ ts),
  ap (λ n. blocks_required n block_size) (length-drop block_size (t ∷ ts)),
  length-chunks_from fuel block_size (drop block_size (t ∷ ts)) h
      (omega (arith, length-drop block_size (t ∷ ts))),
)

-- For a positive block size, a prompt is cut into as many chunks as `blocks_required` says.
pub length-chunks :
    (block_size : ℕ) (tokens : List ℕ)
    → 0 < block_size
    → length (chunks block_size tokens) ≡ blocks_required (length tokens) block_size
unfolding chunks
length-chunks block_size tokens h =
    length-chunks_from (length tokens) block_size tokens h (omega arith)

-- The chunks hold the prompt, in order.
abbrev pub concat : List (List ℕ) → List ℕ
concat [] = []
concat (c ∷ cs) = c ++ concat cs

concat-chunks_from :
    (fuel block_size : ℕ) (tokens : List ℕ)
    → 0 < block_size
    → length tokens ≤ fuel
    → concat (chunks_from fuel block_size tokens) ≡ tokens
unfolding chunks_from
concat-chunks_from zero block_size [] h k = refl
concat-chunks_from zero block_size (t ∷ ts) h k = absurd (omega arith)
concat-chunks_from (suc fuel) block_size [] h k = refl
concat-chunks_from (suc fuel) block_size (t ∷ ts) h k =
    let rest =
      concat-chunks_from fuel block_size (drop block_size (t ∷ ts)) h
        (omega (arith, length-drop block_size (t ∷ ts))) in
    ap (◌++◌ (take block_size (t ∷ ts))) rest ∙ take-append-drop block_size (t ∷ ts)

-- For a positive block size, the chunks of a prompt, put together in order, are the prompt.
pub concat-chunks :
    (block_size : ℕ) (tokens : List ℕ) → 0 < block_size → concat (chunks block_size tokens) ≡ tokens
unfolding chunks
concat-chunks block_size tokens h =
    concat-chunks_from (length tokens) block_size tokens h (omega arith)

-- For a positive block size, some number of blocks has room for the tokens exactly if it is at
-- least `blocks_required`.
pub blocks_required_least :
    (n block_size k : ℕ)
    → 0 < block_size
    → (n ≤ k * block_size) ↔ (blocks_required n block_size ≤ k)
unfolding blocks_required
blocks_required_least n block_size k h = (λ e. grind arith, λ e. grind arith)

-- One more token needs the same number of blocks, or one more.
pub blocks_required-suc :
    (n block_size : ℕ)
    → 0 < block_size
    → (blocks_required n block_size ≤ blocks_required (n + 1) block_size)
      × (blocks_required (n + 1) block_size ≤ blocks_required n block_size + 1)
      × (0 < blocks_required (n + 1) block_size)
unfolding blocks_required
blocks_required-suc n block_size h = (grind arith, grind arith, grind arith)
