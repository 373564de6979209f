-- ===== src/Models/Transformer/Layer/Rows.antt =====
-- The rows of one block (crates/orion-models/src/transformer.rs, `layer_forward`): the rotation of the
-- heads and the attention of each row return, with results of the right shape.
use native.Mathlib.Nat.{suc-mul}
use orion_serve_rs.Prelude.{
  ℕ, zero, suc, ◌+◌, ◌*◌, ◌≤◌, ◌<◌, ◌≡◌, sym, ◌∙◌, subst, List, [], ◌∷◌, arith, length,
  get_elem?_of_lt, lt_of_get_elem?, All, length-overwrite, length-append,
}
use orion_serve_rs.Models.Run.{
  copy_from_slice, copy_from_slice_inside, Returns, returns, Returns-bind, Returns-ok_or,
}
use orion_serve_rs.Models.Float.{Floats}
use orion_serve_rs.Models.Store.{KvStore}
use orion_serve_rs.Models.Tensor.{Matrix, at}
use orion_serve_rs.Models.Tensor.Shape.{
  Shaped, HasLength, slice-HasLength, row-HasLength, row_inside,
}
use orion_serve_rs.Models.Tensor.Rope.{HalfPair, at-HalfPair, apply_rope-HasLength}
use orion_serve_rs.Models.Attention.{AttentionArgs, paged_attention}
use orion_serve_rs.Models.Attention.Dense.{Grouped}
use orion_serve_rs.Models.Attention.Total.{Covers, paged_attention-HasLength}
use orion_serve_rs.Models.Transformer.{
  TransformerModel, rope_heads, rope_row, rope_rows, attend_rows,
}
use orion_serve_rs.Models.Transformer.Layer.{ModelFits, StoreFits, RowsFit, q_dim, kv_dim}

copy-HasLength :
    (xs : List ℕ) (start : ℕ) (vs : List ℕ)
    → start + length vs ≤ length xs
    → Returns (HasLength (length xs)) (copy_from_slice xs start vs)
copy-HasLength xs start vs h =
    rw (copy_from_slice_inside xs start vs h) (returns (length-overwrite xs start vs))

abbrev args_of : TransformerModel → ℕ → List ℕ → ℕ → ℕ → AttentionArgs
args_of m layer table context pos = record {
  block_table = table;
  context_len = context;
  query_position = pos;
  layer = layer;
  num_query_heads = m.meta.num_attention_heads;
  num_kv_heads = m.meta.num_kv_heads;
  head_dim = m.meta.head_dim;
  block_size = m.block_size;
}

module _ (f : Floats) where
  module _ (d : ℕ) (cs : List ℕ × List ℕ) (half : HalfPair d cs) where
    rope_heads-HasLength :
        (heads : ℕ) (xs : List ℕ) (h left : ℕ)
        → length xs ≡ heads * d
        → h + left ≡ heads
        → Returns (HasLength (heads * d)) (rope_heads f cs.0 cs.1 d xs h left)
    rope_heads-HasLength heads xs h zero l e = returns l
    rope_heads-HasLength heads xs h (suc left) l e =
        let room : h * d + d ≤ length xs = rw l (row_inside h d heads (omega (arith, e))) in
        Returns-bind (slice-HasLength xs (h * d) d room) λ vec lv.
          Returns-bind (apply_rope-HasLength f d vec cs lv half) λ turned lt.
            Returns-bind (copy-HasLength xs (h * d) turned (omega (arith, lt)))
              λ xs' l'. rope_heads-HasLength heads xs' (suc h) left (l' ∙ l) (omega (arith, e))

    rope_row-Shaped :
        (n heads : ℕ) (q : Matrix) (i : ℕ)
        → Shaped n (heads * d) q
        → i < n
        → Returns (Shaped n (heads * d)) (rope_row f cs.0 cs.1 d heads q i)
    rope_row-Shaped n heads q i s h = Returns-bind (row-HasLength n (heads * d) q i s h) λ r l.
        Returns-bind (rope_heads-HasLength heads r 0 heads l (omega arith)) λ r' l'.
          Returns-bind
            (copy-HasLength q.elements (i * q.cols) r'
              (rw (l', s.cols, s.size) (row_inside i (heads * d) n h)))
            λ xs lx. returns (record { size = lx ∙ s.size; rows = s.rows; cols = s.cols })

  module _ (m : TransformerModel) (fits : ModelFits m) (blocks : ℕ) where
    abbrev Turned : ℕ → Matrix × Matrix → Type 0
    Turned n qk = Shaped n (q_dim m.meta) qk.0 × Shaped n (kv_dim m.meta) qk.1

    pub rope_rows-Shaped :
        (n : ℕ) (q k : Matrix) (i : ℕ) (positions : List ℕ)
        → Shaped n (q_dim m.meta) q
        → Shaped n (kv_dim m.meta) k
        → All (λ pos. pos < m.meta.max_position_embeddings) positions
        → i + length positions ≤ n
        → Returns (Turned n) (rope_rows f m.meta m.rope q k i positions)
    rope_rows-Shaped n q k i [] sq sk h l = returns (sq, sk)
    rope_rows-Shaped n q k i (pos ∷ positions) sq sk h l =
        Returns-ok_or (at m.rope pos) _ _
          (at-HalfPair m.meta.head_dim m.meta.max_position_embeddings m.rope pos fits.rope h.0)
          λ angle half.
            Returns-bind
              (rope_row-Shaped m.meta.head_dim angle half n m.meta.num_attention_heads q i sq
                (omega arith))
              λ q' sq'.
                Returns-bind
                  (rope_row-Shaped m.meta.head_dim angle half n m.meta.num_kv_heads k i sk
                    (omega arith))
                  λ k' sk'. rope_rows-Shaped n q' k' (suc i) positions sq' sk' h.1 (omega arith)

    attend_one :
        (kv : KvStore) (layer : ℕ) (table : List ℕ) (context pos : ℕ) (qrow : List ℕ)
        → StoreFits m blocks kv
        → layer < m.meta.num_layers
        → length qrow ≡ q_dim m.meta
        → pos < length table * m.block_size
        → All (λ b. b < blocks) table
        → Returns
            (HasLength (q_dim m.meta))
            (paged_attention f kv qrow (args_of m layer table context pos) (q_dim m.meta))
    attend_one kv layer table context pos qrow s low lq reaches known =
        let args = args_of m layer table context pos in
        let covers : Covers kv args = record {
          sized = s.sized;
          layer_lt = omega (arith, s.num_layers);
          kv_heads = sym s.num_kv_heads;
          head_dim = sym s.head_dim;
          block_size = sym s.block_size;
          positive = fits.block_size;
          reaches = reaches;
          known = subst (λ b. All (λ x. x < b) table) (sym s.num_blocks) known;
        } in
        let groups : Grouped args qrow = record {
          query_length = lq;
          kv_heads = fits.kv_heads;
          grouped = fits.grouped;
        } in
        subst (λ n. Returns (HasLength (q_dim m.meta)) (paged_attention f kv qrow args n)) lq
          (paged_attention-HasLength f kv args qrow covers groups)

    pub attend_rows-HasLength :
        (n : ℕ) (kv : KvStore) (layer : ℕ) (tables : List (List ℕ)) (contexts : List ℕ) (q : Matrix)
        (i : ℕ) (seqs positions : List ℕ) (left : ℕ)
        → StoreFits m blocks kv
        → layer < m.meta.num_layers
        → length contexts ≡ length tables
        → Shaped n (q_dim m.meta) q
        → RowsFit m blocks tables seqs positions
        → left ≡ length positions
        → i + left ≡ n
        → Returns
            (HasLength (left * q_dim m.meta))
            (attend_rows f m kv layer tables contexts q i seqs positions left)
    attend_rows-HasLength n kv layer tables contexts q i seqs positions zero s low c sq r l e =
        returns (omega arith)
    attend_rows-HasLength n kv layer tables contexts q i [] [] (suc left) s low c sq r l e =
        absurd (omega arith)
    attend_rows-HasLength n kv layer tables contexts q i [] (pos ∷ positions) (suc left) s low c sq
          r l e =
        elim r [ ]
    attend_rows-HasLength n kv layer tables contexts q i (seq ∷ seqs) [] (suc left) s low c sq r l
          e =
        elim r [ ]
    attend_rows-HasLength n kv layer tables contexts q i (seq ∷ seqs) (pos ∷ positions) (suc left) s
          low c sq r l e =
        let ((table, found, reaches, known, _), rest) = r in
        let (context, is) =
          get_elem?_of_lt contexts seq (omega (arith, c, lt_of_get_elem? tables seq found)) in
        Returns-bind (row-HasLength n (q_dim m.meta) q i sq (omega (arith, e))) λ qrow lq.
          rw (found, is)
            (Returns-bind (attend_one kv layer table context pos qrow s low lq reaches known)
              λ o lo.
                Returns-bind
                  (attend_rows-HasLength n kv layer tables contexts q (suc i) seqs positions left s
                    low c sq rest (omega (arith, l)) (omega (arith, e)))
                  λ more lm.
                    returns
                      (omega (arith, lo, lm, length-append o more, suc-mul left (q_dim m.meta))))
