-- ===== src/Models/Attention.antt =====
-- crates/orion-models/src/attention.rs: `locate` and `paged_attention`, over the arena of Models/Store.
pub mod Dense
pub mod Total
use orion_serve_rs.Prelude.{
  ℕ, zero, suc, ◌+◌, ◌*◌, ◌/◌, ◌%◌, Bool, true, false, not, ◌||◌, Option, none, some, List, [], ◌∷◌,
  ◌++◌, if◌then◌else◌, ◌==◌, length, get_elem?, replicate,
}
use orion_serve_rs.Core.Error.{internal}
use orion_serve_rs.Core.Float32.{one, f32_eq}
use orion_serve_rs.Models.Run.{Run, returned, panic, failed, ◌>>=◌, ok_or, slice}
use orion_serve_rs.Models.Float.{Floats}
use orion_serve_rs.Models.Store.{KvStore, read}
use orion_serve_rs.Models.Tensor.{dot_from, zip_in_place, softmax_inplace}

-- `block_table.get(logical_block).map(|&b| (b, slot))`
abbrev pub located : Option ℕ → ℕ → Option (ℕ × ℕ)
located none slot = none
located (some b) slot = some (b, slot)

-- The divisions panic for blocks without slots.
unfoldable pub locate : List ℕ → ℕ → ℕ → Run (Option (ℕ × ℕ))
locate block_table position block_size =
    if block_size == 0
    then panic
    else returned (located (get_elem? block_table (position / block_size)) (position % block_size))

pub record AttentionArgs : Type 0 where
  pub block_table : List ℕ
  pub context_len : ℕ
  pub query_position : ℕ
  pub layer : ℕ
  pub num_query_heads : ℕ
  pub num_kv_heads : ℕ
  pub head_dim : ℕ
  pub block_size : ℕ

-- The vector that the cache holds for a position.
abbrev pub fetch : KvStore → AttentionArgs → ℕ → Bool → ℕ → Run (List ℕ)
fetch store args kv_head is_value pos = locate args.block_table pos args.block_size >>= λ found.
    ok_or found (internal "position outside the block table") >>= λ at.
    read store args.layer at.0 at.1 kv_head is_value

module _ (f : Floats) where
  -- The scores of the `left` positions from `pos` on.
  abbrev pub scores_from : KvStore → AttentionArgs → ℕ → List ℕ → ℕ → ℕ → ℕ → Run (List ℕ)
  scores_from store args kv_head q scale pos zero = returned []
  scores_from store args kv_head q scale pos (suc left) =
      fetch store args kv_head false pos >>= λ k.
      scores_from store args kv_head q scale (suc pos) left >>= λ rest.
      returned (f.mul (dot_from f 0 q k) scale ∷ rest)

  -- `*acc += w * val` along the zip.
  abbrev pub accumulate : ℕ → List ℕ → List ℕ → List ℕ
  accumulate w = zip_in_place (λ acc val. f.add acc (f.mul w val))

  -- A weight of zero is passed over.
  abbrev pub weighted_from : KvStore → AttentionArgs → ℕ → ℕ → List ℕ → List ℕ → Run (List ℕ)
  weighted_from store args kv_head pos [] o = returned o
  weighted_from store args kv_head pos (w ∷ ws) o =
      if f32_eq w 0
      then weighted_from store args kv_head (suc pos) ws o
      else (fetch store args kv_head true pos >>= λ v.
          weighted_from store args kv_head (suc pos) ws (accumulate w o v))

  abbrev pub scale_of : ℕ → ℕ
  scale_of head_dim = f.div one (f.sqrt (f.of_usize head_dim))

  -- One query head: its scores, their softmax, and the weighted sum of the values.
  abbrev pub attend_head : KvStore → AttentionArgs → List ℕ → ℕ → ℕ → Run (List ℕ)
  attend_head store args query group_size qh =
      slice query (qh * args.head_dim) (qh * args.head_dim + args.head_dim) >>= λ q.
      scores_from store args (qh / group_size) q (scale_of args.head_dim) 0
        (args.query_position + 1)
      >>= λ scores.
          weighted_from store args (qh / group_size) 0 (softmax_inplace f scores)
            (replicate args.head_dim 0)

  -- The heads from `qh` on. Each fills its own part of the output, one part after the other.
  abbrev pub attend_heads : KvStore → AttentionArgs → List ℕ → ℕ → ℕ → ℕ → Run (List ℕ)
  attend_heads store args query group_size qh zero = returned []
  attend_heads store args query group_size qh (suc left) =
      attend_head store args query group_size qh >>= λ o.
      attend_heads store args query group_size (suc qh) left >>= λ rest. returned (o ++ rest)

  -- The output that is written to `out`, whose length is `out_len`.
  unfoldable pub paged_attention : KvStore → List ℕ → AttentionArgs → ℕ → Run (List ℕ)
  unfolding softmax_inplace
  paged_attention store query args out_len =
      if not (length query == args.num_query_heads * args.head_dim) || not (out_len == length query)
      then failed (internal "attention expected other query elements")
      else (if args.num_kv_heads == 0 || not (args.num_query_heads % args.num_kv_heads == 0)
          then failed (internal "query heads cannot be grouped over kv heads")
          else attend_heads store args query (args.num_query_heads / args.num_kv_heads) 0
              args.num_query_heads)
