-- ===== src/Distributed/Aligned.antt =====
-- The layout of a model over ranks (crates/orion-distributed/src/lib.rs): whole groups of heads.
use native.Mathlib.Nat.{mul_assoc, mul_comm, eq_of_mul-eq-mul_right}
use orion_serve_rs.Prelude.{
  ℕ, zero, suc, ◌*◌, ◌≤◌, ◌≡◌, refl, sym, ap, ◌∙◌, inl, inr, arith, ltb, Bool-cases,
}
use orion_serve_rs.Core.Error.{Result, ok, err}
use orion_serve_rs.Core.Model.{ModelMetadata}
use orion_serve_rs.Distributed.Layout.{
  Shard, ParallelLayout, and_then, whole, shard_dimension, split_all, compute,
}
use orion_serve_rs.Distributed.Partition.{rank_of, shard_dimension_fields}

and_then-ok :
    {A B : Type 0} (r : Result A) (f : A → Result B) (b : B)
    → and_then r f ≡ ok b
    → (a : A) × (r ≡ ok a) × (f a ≡ ok b)
and_then-ok (ok a) f b e = (a, refl, e)
and_then-ok (err x) f b e = absurd (ground (arith, e))

-- Each shard of the layout is the rank's share of its dimension.
pub Shares : ℕ → ℕ → ℕ → Shard → Type 0
Shares total index w s = (s.len * suc w ≡ total) × (s.start ≡ index * s.len)

whole-Shares : (n index : ℕ) (w : ℕ) → suc w ≤ 1 → index ≤ w → Shares n index w (whole n)
unfolding Shares
whole-Shares n index zero le small = (ground arith, ground (arith, small))
whole-Shares n index (suc w) le small = absurd (omega (arith, le))

split_all-Shares :
    (meta : ModelMetadata) (index w ffn_dim : ℕ) (l : ParallelLayout)
    → split_all meta (rank_of index (suc w)) ffn_dim ≡ ok l
    → Shares meta.num_attention_heads index w l.query_heads
      × Shares meta.num_kv_heads index w l.kv_heads
      × Shares ffn_dim index w l.ffn
unfolding split_all Shares
split_all-Shares meta index w ffn_dim l e =
    let r = rank_of index (suc w) in
    let third : Shard → Shard → Shard → Result ParallelLayout =
      λ q kv f. ok (record { rank = r; query_heads = q; kv_heads = kv; ffn = f }) in
    let second : Shard → Shard → Result ParallelLayout =
      λ q kv. and_then (shard_dimension ffn_dim r) (third q kv) in
    let first : Shard → Result ParallelLayout =
      λ q. and_then (shard_dimension meta.num_kv_heads r) (second q) in
    let (q, q_is, e1) = and_then-ok (shard_dimension meta.num_attention_heads r) first l e in
    let (kv, kv_is, e2) = and_then-ok (shard_dimension meta.num_kv_heads r) (second q) l e1 in
    let (f, f_is, e3) = and_then-ok (shard_dimension ffn_dim r) (third q kv) l e2 in
    let l_is : (record { rank = rank_of index (suc w); query_heads = q; kv_heads = kv; ffn = f })
        ≡ l =
      ground (arith, e3) in
    rw (sym l_is) (
      shard_dimension_fields meta.num_attention_heads index w q q_is,
      shard_dimension_fields meta.num_kv_heads index w kv kv_is,
      shard_dimension_fields ffn_dim index w f f_is,
    )

pub compute-Shares :
    (meta : ModelMetadata) (index w ffn_dim : ℕ) (l : ParallelLayout)
    → index ≤ w
    → compute meta (rank_of index (suc w)) ffn_dim ≡ ok l
    → Shares meta.num_attention_heads index w l.query_heads
      × Shares meta.num_kv_heads index w l.kv_heads
      × Shares ffn_dim index w l.ffn
unfolding compute Shares
compute-Shares meta index w ffn_dim l small e = elim (Bool-cases (ltb 1 (suc w))) [
  | inr alone ↦
      let l_is : (record {
        rank = rank_of index (suc w);
        query_heads = whole meta.num_attention_heads;
        kv_heads = whole meta.num_kv_heads;
        ffn = whole ffn_dim;
      })
          ≡ l =
        ground (arith, e, alone) in
      let one : suc w ≤ 1 = ground (arith, alone) in
      rw (sym l_is) (
        whole-Shares meta.num_attention_heads index w one small,
        whole-Shares meta.num_kv_heads index w one small,
        whole-Shares ffn_dim index w one small,
      )
  | inl many ↦ elim (Bool-cases (ltb meta.num_kv_heads (suc w))) [
    | inl few ↦ absurd (ground (arith, e, many, few))
    | inr enough ↦ split_all-Shares meta index w ffn_dim l (ground (arith, e, many, enough))
  ]
]

-- For a model whose query heads are a multiple of its key-value heads, a rank of a valid index
-- that gets a layout has that multiple of query heads for its key-value heads, and they start at
-- that multiple of the first of these: every group of heads stays on one rank.
pub compute_aligned :
    (meta : ModelMetadata) (index w ffn_dim group : ℕ) (l : ParallelLayout)
    → index ≤ w
    → meta.num_attention_heads ≡ group * meta.num_kv_heads
    → compute meta (rank_of index (suc w)) ffn_dim ≡ ok l
    → (l.query_heads.len ≡ group * l.kv_heads.len)
      × (l.query_heads.start ≡ group * l.kv_heads.start)
unfolding Shares
compute_aligned meta index w ffn_dim group l small grouped e =
    let ((q_all, q_start), (kv_all, kv_start), f) = compute-Shares meta index w ffn_dim l small e in
    let lens : l.query_heads.len ≡ group * l.kv_heads.len =
      eq_of_mul-eq-mul_right (suc w) (omega arith) l.query_heads.len (group * l.kv_heads.len) (
        q_all
        ∙ grouped
        ∙ ap (λ n. group * n) (sym kv_all)
        ∙ sym (mul_assoc group l.kv_heads.len (suc w))) in
    (
      lens,
      q_start
          ∙ ap (λ n. index * n) lens
          ∙ sym (mul_assoc index group l.kv_heads.len)
          ∙ ap (λ n. n * l.kv_heads.len) (mul_comm index group)
          ∙ mul_assoc group index l.kv_heads.len
          ∙ ap (λ n. group * n) (sym kv_start),
    )
