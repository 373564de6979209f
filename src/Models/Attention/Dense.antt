-- ===== src/Models/Attention/Dense.antt =====
-- Attention over contiguous keys and values, and `paged_attention`
-- (crates/orion-models/src/attention.rs) against it.
use native.Mathlib.Nat.{mul_comm, lt_of_mul-lt-mul_right, div-mul-le_self, div-add-mod'}
use orion_serve_rs.Prelude.{
  ℕ, zero, suc, ◌+◌, ◌*◌, ◌/◌, ◌%◌, ◌≤◌, ◌<◌, ◌≡◌, refl, ap, ◌∙◌, true, false, List, [], ◌∷◌, ◌++◌,
  map, arith, if◌then◌else◌, ◌==◌, length, cut, replicate, Bool-cases, ==_refl, subst, inl, inr,
}
use orion_serve_rs.Core.Float32.{f32_eq}
use orion_serve_rs.Models.Run.{returned, slice_inside, agrees}
use orion_serve_rs.Models.Float.{Floats}
use orion_serve_rs.Models.Store.{KvStore}
use orion_serve_rs.Models.Tensor.{dot_from, softmax_inplace}
use orion_serve_rs.Models.Tensor.Shape.{length-softmax_inplace, row_inside}
use orion_serve_rs.Models.Attention.{
  AttentionArgs, fetch, scores_from, accumulate, weighted_from, scale_of, attend_head, attend_heads,
  paged_attention,
}

-- `[g 0, g 1, …]`, from `pos` on.
abbrev pub tabulate : (ℕ → List ℕ) → ℕ → ℕ → List (List ℕ)
tabulate g pos zero = []
tabulate g pos (suc n) = g pos ∷ tabulate g (suc pos) n

length-scores :
    (g : ℕ → List ℕ) (score : List ℕ → ℕ) (pos n : ℕ) → length (map score (tabulate g pos n)) ≡ n
length-scores g score pos zero = refl
length-scores g score pos (suc n) = ap suc (length-scores g score (suc pos) n)

not_zero : (n : ℕ) → 0 < n → (n == 0) ≡ false
not_zero n h = ground arith

-- What the arguments promise to `paged_attention`.
pub record Grouped (args : AttentionArgs) (query : List ℕ) : Type 0 where
  pub query_length : length query ≡ args.num_query_heads * args.head_dim
  pub kv_heads : 0 < args.num_kv_heads
  pub grouped : args.num_query_heads % args.num_kv_heads ≡ 0

-- The vectors that the cache holds up to the query's position, under every key-value head.
pub record Caches (store : KvStore) (args : AttentionArgs) (keys values : ℕ → ℕ → List ℕ)
    : Type 0 where
  pub key :
      (head pos : ℕ)
      → head < args.num_kv_heads
      → pos ≤ args.query_position
      → fetch store args head false pos ≡ returned (keys head pos)
  pub value :
      (head pos : ℕ)
      → head < args.num_kv_heads
      → pos ≤ args.query_position
      → fetch store args head true pos ≡ returned (values head pos)

module _ (f : Floats) where
  abbrev pub mix_values : List ℕ → List (List ℕ) → List ℕ → List ℕ
  mix_values [] vs o = o
  mix_values (w ∷ ws) [] o = o
  mix_values (w ∷ ws) (v ∷ vs) o = mix_values ws vs (if f32_eq w 0 then o else accumulate f w o v)

  -- Attention of one head over a list of keys and a list of values.
  abbrev pub dense_head : ℕ → List ℕ → List (List ℕ) → List (List ℕ) → List ℕ
  dense_head head_dim q ks vs =
      let scores = map (λ k. f.mul (dot_from f 0 q k) (scale_of f head_dim)) ks in
      mix_values (softmax_inplace f scores) vs (replicate head_dim 0)

  abbrev pub dense_heads :
      AttentionArgs → List ℕ → (ℕ → ℕ → List ℕ) → (ℕ → ℕ → List ℕ) → ℕ → ℕ → ℕ → List ℕ
  dense_heads args query keys values group_size qh zero = []
  dense_heads args query keys values group_size qh (suc left) =
      let context = args.query_position + 1 in
      dense_head args.head_dim (cut query (qh * args.head_dim) args.head_dim)
        (tabulate (keys (qh / group_size)) 0 context)
        (tabulate (values (qh / group_size)) 0 context)
      ++ dense_heads args query keys values group_size (suc qh) left

  -- Every query head over the keys and values of its group, the heads one after the other.
  abbrev pub dense_attention : AttentionArgs → List ℕ → (ℕ → ℕ → List ℕ) → (ℕ → ℕ → List ℕ) → List ℕ
  dense_attention args query keys values =
      dense_heads args query keys values (args.num_query_heads / args.num_kv_heads) 0
        args.num_query_heads

  module _ (store : KvStore) (args : AttentionArgs) (keys values : ℕ → ℕ → List ℕ)
      (c : Caches store args keys values) where
    scores_dense :
        (head : ℕ) (q : List ℕ) (scale pos left : ℕ)
        → head < args.num_kv_heads
        → pos + left ≤ args.query_position + 1
        → scores_from f store args head q scale pos left
          ≡ returned (map (λ k. f.mul (dot_from f 0 q k) scale) (tabulate (keys head) pos left))
    scores_dense head q scale pos zero h l = refl
    scores_dense head q scale pos (suc left) h l =
        rw
          (c.key head pos h (omega arith), scores_dense head q scale (suc pos) left h (omega arith))
          refl

    weighted_dense :
        (head pos : ℕ) (ws o : List ℕ)
        → head < args.num_kv_heads
        → pos + length ws ≤ args.query_position + 1
        → weighted_from f store args head pos ws o
          ≡ returned (mix_values ws (tabulate (values head) pos (length ws)) o)
    weighted_dense head pos [] o h l = refl
    weighted_dense head pos (w ∷ ws) o h l = elim (Bool-cases (f32_eq w 0)) [
      | inl skip ↦ rw skip (weighted_dense head (suc pos) ws o h (omega arith))
      | inr take ↦
          rw (take, c.value head pos h (omega arith))
            (weighted_dense head (suc pos) ws (accumulate f w o (values head pos)) h (omega arith))
    ]

    length-weights :
        (g : ℕ → List ℕ) (score : List ℕ → ℕ) (n : ℕ)
        → length (softmax_inplace f (map score (tabulate g 0 n))) ≡ n
    length-weights g score n =
        length-softmax_inplace f (map score (tabulate g 0 n)) ∙ length-scores g score 0 n

    weighted_all :
        (head : ℕ) (ws o : List ℕ) (n : ℕ)
        → length ws ≡ n
        → head < args.num_kv_heads
        → n ≤ args.query_position + 1
        → weighted_from f store args head 0 ws o
          ≡ returned (mix_values ws (tabulate (values head) 0 n) o)
    weighted_all head ws o n l h r =
        subst
          (λ m.
            weighted_from f store args head 0 ws o
            ≡ returned (mix_values ws (tabulate (values head) 0 m) o))
          l (weighted_dense head 0 ws o h (omega arith))

    module _ (query : List ℕ) (g : Grouped args query) where
      abbrev group_size : ℕ
      group_size = args.num_query_heads / args.num_kv_heads

      query_room :
          (qh : ℕ) → qh < args.num_query_heads → qh * args.head_dim + args.head_dim ≤ length query
      query_room qh h = rw g.query_length (row_inside qh args.head_dim args.num_query_heads h)

      group_lt : (qh : ℕ) → qh < args.num_query_heads → qh / group_size < args.num_kv_heads
      group_lt qh h = lt_of_mul-lt-mul_right group_size (
          omega (
            arith,
            div-mul-le_self qh group_size,
            div-add-mod' args.num_query_heads args.num_kv_heads,
            g.grouped,
            mul_comm args.num_kv_heads group_size,
          ))

      attend_head_dense :
          (qh : ℕ)
          → qh < args.num_query_heads
          → attend_head f store args query group_size qh
            ≡ returned (
                dense_head args.head_dim
                  (cut query (qh * args.head_dim) args.head_dim)
                  (tabulate (keys (qh / group_size)) 0 (args.query_position + 1))
                  (tabulate (values (qh / group_size)) 0 (args.query_position + 1)))
      attend_head_dense qh h =
          rw
            (
              slice_inside query (qh * args.head_dim) args.head_dim (query_room qh h),
              scores_dense (qh / group_size) (cut query (qh * args.head_dim) args.head_dim)
                  (scale_of f args.head_dim) 0 (args.query_position + 1) (group_lt qh h)
                  (omega arith),
            )
            (weighted_all (qh / group_size) _ _ (args.query_position + 1)
              (length-weights (keys (qh / group_size)) _ (args.query_position + 1)) (group_lt qh h)
              (omega arith))

      attend_heads_dense :
          (qh left : ℕ)
          → qh + left ≤ args.num_query_heads
          → attend_heads f store args query group_size qh left
            ≡ returned (dense_heads args query keys values group_size qh left)
      attend_heads_dense qh zero h = refl
      attend_heads_dense qh (suc left) h =
          rw (attend_head_dense qh (omega arith), attend_heads_dense (suc qh) left (omega arith))
            refl

      -- Where the cache holds a key and a value for each position up to the query's, and the query
      -- heads can be grouped over the key-value heads: `paged_attention` returns the attention of
      -- each query head over the keys and values of its group laid out as one list, whatever the
      -- arithmetic. Where the blocks lie, what else the arena holds and what follows the query's
      -- position make no difference.
      pub paged_attention-dense_attention :
          paged_attention f store query args (length query)
          ≡ returned (dense_attention args query keys values)
      unfolding paged_attention
      paged_attention-dense_attention =
          rw
            (
              agrees g.query_length,
              ==_refl (length query),
              not_zero args.num_kv_heads g.kv_heads,
              agrees g.grouped,
            )
            (attend_heads_dense 0 args.num_query_heads (omega arith))
