-- ===== src/Models/Transformer/Layer/Total.antt =====
-- One block of the transformer (crates/orion-models/src/transformer.rs, `layer_forward`), from its
-- parts.
use orion_serve_rs.Prelude.{
  ℕ, zero, suc, ◌*◌, ◌<◌, ◌≡◌, refl, ap, ◌∙◌, none, List, [], ◌∷◌, arith, length, take, All,
  length-take,
}
use orion_serve_rs.Models.Run.{Returns, returns, Returns-bind}
use orion_serve_rs.Models.Float.{Floats}
use orion_serve_rs.Models.Store.{KvStore}
use orion_serve_rs.Models.Tensor.{Matrix, rms_norm}
use orion_serve_rs.Models.Tensor.Shape.{
  Shaped, length-zip_in_place, linear-Shaped, rms_norm-Shaped, swiglu-Shaped,
}
use orion_serve_rs.Models.Transformer.{
  LayerWeights, TransformerModel, PhysicalSlot, add_residual, mlp, layer_forward,
}
use orion_serve_rs.Models.Transformer.Layer.{
  LayerShaped, ModelFits, StoreFits, RowsFit, PlaceFits, q_dim, kv_dim,
}
use orion_serve_rs.Models.Transformer.Layer.Cache.{write_rows-StoreFits}
use orion_serve_rs.Models.Transformer.Layer.Rows.{rope_rows-Shaped, attend_rows-HasLength}

All-take {ℓ κ} : {A : Type ℓ} (P : A → Type κ) (n : ℕ) (xs : List A) → All P xs → All P (take n xs)
All-take P zero xs h = tt
All-take P (suc n) [] h = tt
All-take P (suc n) (x ∷ xs) h = (h.0, All-take P n xs h.1)

add_residual-Shaped :
    (f : Floats) (n k : ℕ) (x y : Matrix) → Shaped n k x → Shaped n k (add_residual f x y)
add_residual-Shaped f n k x y s = record {
  size = length-zip_in_place f.add x.elements y.elements ∙ s.size;
  rows = s.rows;
  cols = s.cols;
}

-- A norm over rows that are not empty.
pub norm-Shaped :
    (f : Floats) (n k : ℕ) (x : Matrix) (weight : List ℕ) (eps : ℕ)
    → 0 < k
    → Shaped n k x
    → length weight ≡ k
    → Returns (Shaped n k) (rms_norm f x weight eps)
norm-Shaped f n zero x weight eps pos s l = absurd (omega arith)
norm-Shaped f n (suc k) x weight eps pos s l = rms_norm-Shaped f n k x weight eps s l

RowsFit-positions :
    (m : TransformerModel) (blocks : ℕ) (tables : List (List ℕ)) (seqs positions : List ℕ)
    → RowsFit m blocks tables seqs positions
    → All (λ pos. pos < m.meta.max_position_embeddings) positions
RowsFit-positions m blocks tables seqs [] r = tt
RowsFit-positions m blocks tables [] (pos ∷ positions) r = elim r [ ]
RowsFit-positions m blocks tables (seq ∷ seqs) (pos ∷ positions) r =
    let ((_, _, _, _, low), rest) = r in
    (low, RowsFit-positions m blocks tables seqs positions rest)

module _ (f : Floats) (m : TransformerModel) (fits : ModelFits m) (ffn : ℕ) where
  mlp-Shaped :
      (n : ℕ) (w : LayerWeights) (hidden : Matrix)
      → LayerShaped m.meta ffn w
      → Shaped n m.meta.hidden_size hidden
      → Returns (Shaped n m.meta.hidden_size) (mlp f m w hidden)
  mlp-Shaped n w hidden ws s =
      let h = m.meta.hidden_size in
      Returns-bind
        (norm-Shaped f n h hidden w.post_attn_norm m.meta.rms_norm_eps fits.hidden s
          ws.post_attn_norm)
        λ normed sn.
          Returns-bind (linear-Shaped f n ffn h normed w.gate_proj none sn ws.gate_proj refl)
            λ gate sg.
              Returns-bind (linear-Shaped f n ffn h normed w.up_proj none sn ws.up_proj refl)
                λ up su. Returns-bind (swiglu-Shaped f n ffn gate up sg su) λ act sa.
                  Returns-bind (linear-Shaped f n h ffn act w.down_proj none sa ws.down_proj refl)
                    λ out _. returns (add_residual-Shaped f n h hidden out s)

  -- The hidden states keep their shape, and the arena fits the model as before.
  abbrev pub Passed : ℕ → ℕ → Matrix × KvStore → Type 0
  Passed n blocks next = Shaped n m.meta.hidden_size next.0 × StoreFits m blocks next.1

  -- A block returns on a batch whose rows fit.
  pub layer_forward-Passed :
      (blocks n : ℕ) (kv : KvStore) (layer : ℕ) (w : LayerWeights) (hidden : Matrix)
      (positions : List ℕ) (slots : List PhysicalSlot) (seqs : List ℕ) (tables : List (List ℕ))
      (contexts : List ℕ)
      → LayerShaped m.meta ffn w
      → Shaped n m.meta.hidden_size hidden
      → StoreFits m blocks kv
      → layer < m.meta.num_layers
      → n ≡ length positions
      → length contexts ≡ length tables
      → RowsFit m blocks tables seqs positions
      → All (PlaceFits m blocks) slots
      → Returns
          (Passed n blocks)
          (layer_forward f m kv layer w hidden positions slots seqs tables contexts)
  unfolding layer_forward
  layer_forward-Passed blocks n kv layer w hidden positions slots seqs tables contexts ws s st low e
        c rows places =
      let h = m.meta.hidden_size in
      Returns-bind
        (norm-Shaped f n h hidden w.input_norm m.meta.rms_norm_eps fits.hidden s ws.input_norm)
        λ normed sn.
          Returns-bind
            (linear-Shaped f n (q_dim m.meta) h normed w.q_proj w.q_bias sn ws.q_proj ws.q_bias)
            λ q sq.
              Returns-bind
                (linear-Shaped f n (kv_dim m.meta) h normed w.k_proj w.k_bias sn ws.k_proj
                  ws.k_bias)
                λ k sk.
                  Returns-bind
                    (linear-Shaped f n (kv_dim m.meta) h normed w.v_proj w.v_bias sn ws.v_proj
                      ws.v_bias)
                    λ v sv.
                      Returns-bind
                        (rope_rows-Shaped f m fits blocks n q k 0 (take hidden.rows positions) sq sk
                          (All-take _ hidden.rows positions
                            (RowsFit-positions m blocks tables seqs positions rows))
                          (omega (arith, s.rows, length-take hidden.rows positions)))
                        λ turned st'.
                          Returns-bind
                            (write_rows-StoreFits m blocks layer low n kv turned.1 v 0
                              (take hidden.rows slots) st'.1 sv st
                              (All-take _ hidden.rows slots places)
                              (omega (arith, s.rows, length-take hidden.rows slots)))
                            λ kv' fits'.
                              Returns-bind
                                (attend_rows-HasLength f m fits blocks n kv' layer tables contexts
                                  turned.0 0 seqs positions hidden.rows fits' low c st'.0 rows
                                  (s.rows ∙ e) (omega (arith, s.rows)))
                                λ xs lx.
                                  Returns-bind
                                    (linear-Shaped f n h (q_dim m.meta)
                                      (record {
                                        elements = xs;
                                        rows = hidden.rows;
                                        cols = q_dim m.meta;
                                      })
                                      w.o_proj none
                                      (record {
                                        size = lx ∙ ap (λ r. r * q_dim m.meta) s.rows;
                                        rows = s.rows;
                                        cols = refl;
                                      })
                                      ws.o_proj refl)
                                    λ projected _.
                                      Returns-bind
                                        (mlp-Shaped n w (add_residual f hidden projected) ws
                                          (add_residual-Shaped f n h hidden projected s))
                                        λ out so. returns (so, fits')
