-- ===== src/Models/Transformer/Forward/Total.antt =====
-- The forward pass (crates/orion-models/src/transformer.rs, `forward`) answers every batch that fits.
use orion_serve_rs.Prelude.{
  ℕ, zero, suc, ◌+◌, ◌*◌, ◌<◌, ◌≡◌, refl, sym, ap, ◌∙◌, subst, none, List, [], ◌∷◌, arith, ◌==◌,
  length, get_elem?_of_lt, All, if_elim,
}
use orion_serve_rs.Core.Batch.{ForwardBatch, sum}
use orion_serve_rs.Core.Forward.{ForwardOutput}
use orion_serve_rs.Runtime.Batch.Total.{Aligned, validate-Aligned}
use orion_serve_rs.Models.Run.{Returns, returns, Returns-bind}
use orion_serve_rs.Models.Float.{Floats}
use orion_serve_rs.Models.Store.{KvStore}
use orion_serve_rs.Models.Tensor.{Matrix}
use orion_serve_rs.Models.Tensor.Shape.{Shaped, HasLength, linear-Shaped}
use orion_serve_rs.Models.Attention.Total.{All-get_elem?}
use orion_serve_rs.Models.Transformer.{TransformerModel, PhysicalSlot, head_of}
use orion_serve_rs.Models.Transformer.Layer.{
  LayerShaped, WeightsShaped, ModelFits, StoreFits, RowsFit, PlaceFits,
}
use orion_serve_rs.Models.Transformer.Layer.Total.{norm-Shaped, Passed, layer_forward-Passed}
use orion_serve_rs.Models.Transformer.Forward.{
  rows_of, layers_from, logits_of, forward_tokens, forward,
}
use orion_serve_rs.Models.Transformer.Forward.Parts.{
  embed-Shaped, gather-HasLength, last_rows_from-LastRows, slots_of-PlaceFits,
}

-- A batch of tokens of the vocabulary, each at a position that its sequence's table reaches, and at
-- least one for each sequence.
pub record BatchFits (m : TransformerModel) (blocks : ℕ) (batch : ForwardBatch) : Type 0 where
  pub aligned : Aligned batch
  pub tokens : All (λ t. t < m.meta.vocab_size) batch.tokens
  pub rows : RowsFit m blocks batch.block_tables (rows_of 0 batch.slot_token_counts) batch.positions
  pub counts : All (λ n. 0 < n) batch.slot_token_counts

-- One row of logits for each sequence of the batch, and an arena that fits the model.
pub record Answers (m : TransformerModel) (blocks : ℕ) (batch : ForwardBatch)
    (answer : ForwardOutput × KvStore) : Type 0 where
  pub logits : length answer.0.logits ≡ length batch.sequence_ids * m.meta.vocab_size
  pub vocab_size : answer.0.vocab_size ≡ m.meta.vocab_size
  pub sequence_ids : answer.0.sequence_ids ≡ batch.sequence_ids
  pub store : StoreFits m blocks answer.1

empty_batch_ids :
    (counts ids : List ℕ)
    → All (λ n. 0 < n) counts
    → sum counts ≡ 0
    → length counts ≡ length ids
    → [] ≡ ids
empty_batch_ids [] [] pos e l = refl
empty_batch_ids [] (x ∷ ids) pos e l = absurd (omega arith)
empty_batch_ids (n ∷ counts) ids pos e l = absurd (omega (arith, pos.0))

module _ (f : Floats) (m : TransformerModel) (fits : ModelFits m) (ffn blocks : ℕ) where
  module _ (ws : WeightsShaped m.meta m.weights ffn) where
    layers_from-Passed :
        (n : ℕ) (kv : KvStore) (layer left : ℕ) (hidden : Matrix) (positions : List ℕ)
        (slots : List PhysicalSlot) (seqs : List ℕ) (tables : List (List ℕ)) (contexts : List ℕ)
        → Shaped n m.meta.hidden_size hidden
        → StoreFits m blocks kv
        → layer + left ≡ m.meta.num_layers
        → n ≡ length positions
        → length contexts ≡ length tables
        → RowsFit m blocks tables seqs positions
        → All (PlaceFits m blocks) slots
        → Returns
            (Passed f m fits ffn n blocks)
            (layers_from f m kv layer left hidden positions slots seqs tables contexts)
    layers_from-Passed n kv layer zero hidden positions slots seqs tables contexts s st l e c r p =
        returns (s, st)
    layers_from-Passed n kv layer (suc left) hidden positions slots seqs tables contexts s st l e c
          r p =
        let (w, is) = get_elem?_of_lt m.weights.layers layer (omega (arith, ws.num_layers)) in
        let shaped = All-get_elem? (LayerShaped m.meta ffn) m.weights.layers layer ws.layers is in
        rw is (
          Returns-bind
            (layer_forward-Passed f m fits ffn blocks n kv layer w hidden positions slots seqs
              tables contexts shaped s st (omega arith) e c r p)
            λ next q.
              layers_from-Passed n next.1 (suc layer) left next.0 positions slots seqs tables
                contexts q.0 q.1 (omega arith) e c r p)

    logits_of-HasLength :
        (n : ℕ) (hidden : Matrix) (counts : List ℕ)
        → Shaped n m.meta.hidden_size hidden
        → All (λ c. 0 < c) counts
        → sum counts ≡ n
        → Returns (HasLength (length counts * m.meta.vocab_size)) (logits_of f m hidden counts)
    logits_of-HasLength n hidden counts s pos e =
        let h = m.meta.hidden_size in
        Returns-bind
          (norm-Shaped f n h hidden m.weights.final_norm m.meta.rms_norm_eps fits.hidden s
            ws.final_norm)
          λ normed sn.
            Returns-bind (last_rows_from-LastRows n 0 counts pos (omega (arith, e))) λ rows last.
              Returns-bind (gather-HasLength n h normed rows sn last.1) λ xs lx.
                Returns-bind
                  (linear-Shaped f (length rows) m.meta.vocab_size h
                    (record { elements = xs; rows = length rows; cols = h }) (head_of m.weights)
                    none (record { size = lx; rows = refl; cols = refl }) ws.head refl)
                  λ logits sl. returns (sl.size ∙ ap (λ c. c * m.meta.vocab_size) last.0)

    forward_tokens-Answers :
        (kv : KvStore) (batch : ForwardBatch)
        → StoreFits m blocks kv
        → BatchFits m blocks batch
        → Returns (Answers m blocks batch) (forward_tokens f m kv batch)
    forward_tokens-Answers kv batch st b =
        let a = b.aligned in
        Returns-bind (slots_of-PlaceFits m fits blocks _ _ batch.positions b.rows) λ slots places.
          Returns-bind (embed-Shaped m m.meta.vocab_size batch.tokens ws.embed_tokens b.tokens)
            λ hidden s.
              Returns-bind
                (layers_from-Passed (length batch.tokens) kv 0 m.meta.num_layers hidden
                  batch.positions slots (rows_of 0 batch.slot_token_counts) batch.block_tables
                  batch.context_lens s st (omega arith) (sym a.placed) (a.contexts ∙ sym a.tables)
                  b.rows places)
                λ end p.
                  Returns-bind
                    (logits_of-HasLength (length batch.tokens) end.0 batch.slot_token_counts p.0
                      b.counts a.summed)
                    λ logits l. returns (record {
                      logits = l ∙ ap (λ c. c * m.meta.vocab_size) a.counts;
                      vocab_size = refl;
                      sequence_ids = refl;
                      store = p.1;
                    })

    -- For a model with weights of the shapes that are loaded, dimensions that are not zero, groups
    -- of heads and its rotary table, and an arena that fits it: a batch whose arrays agree, with
    -- tokens of the vocabulary, at least one for each sequence, and positions that the block
    -- tables and the rotary table reach, is answered. The forward pass returns, without an error
    -- and without a panic; the output has one row of logits for each sequence of the batch, in its
    -- order, and the arena fits the model as before.
    pub forward-Answers :
        (kv : KvStore) (batch : ForwardBatch)
        → StoreFits m blocks kv
        → BatchFits m blocks batch
        → Returns (Answers m blocks batch) (forward f m kv batch)
    unfolding forward
    forward-Answers kv batch st b = rw (validate-Aligned batch b.aligned) (
        if_elim (Returns (Answers m blocks batch)) (length batch.tokens == 0)
          (λ empty.
            let none_left : sum batch.slot_token_counts ≡ 0 =
              ground (arith, b.aligned.summed, empty) in
            let no_ids : [] ≡ batch.sequence_ids =
              empty_batch_ids batch.slot_token_counts batch.sequence_ids b.counts none_left
                b.aligned.counts in
            returns (record {
              logits = subst (λ ids. 0 ≡ length ids * m.meta.vocab_size) no_ids (omega arith);
              vocab_size = refl;
              sequence_ids = no_ids;
              store = st;
            }))
          (λ _. forward_tokens-Answers kv batch st b))
