-- ===== src/Models/Transformer/Forward/Logits.antt =====
-- The rows of the logits of a pass (crates/orion-models/src/transformer.rs), which the engine takes by
-- `row` of crates/orion-core/src/traits.rs.
use orion_serve_rs.Prelude.{
  ℕ, ◌+◌, ◌-◌, ◌*◌, ◌≤◌, ◌<◌, ◌≡◌, ◌∙◌, sym, ap, subst, refl, false, some, List, arith, length, cut,
  length-cut, ltb, leb,
}
use orion_serve_rs.Core.Batch.{ForwardBatch}
use orion_serve_rs.Core.Forward.{ForwardOutput, row}
use orion_serve_rs.Scheduler.Output.{u64_mod}
use orion_serve_rs.Models.Run.{Returns, Returns-weaken}
use orion_serve_rs.Models.Float.{Floats}
use orion_serve_rs.Models.Store.{KvStore}
use orion_serve_rs.Models.Tensor.Shape.{row_inside}
use orion_serve_rs.Models.Transformer.{TransformerModel}
use orion_serve_rs.Models.Transformer.Layer.{WeightsShaped, ModelFits, StoreFits}
use orion_serve_rs.Models.Transformer.Forward.{forward}
use orion_serve_rs.Models.Transformer.Forward.Total.{BatchFits, Answers, forward-Answers}

-- The row is there, with an entry for each token of the vocabulary.
abbrev pub HasRow : ℕ → ℕ → ForwardOutput → Type 0
HasRow vocab i out = (r : List ℕ) × (row out i ≡ some r) × (length r ≡ vocab)

row_there :
    (out : ForwardOutput) (n i : ℕ)
    → length out.logits ≡ n * out.vocab_size
    → i < n
    → n * out.vocab_size < u64_mod
    → HasRow out.vocab_size i out
unfolding row
row_there out n i l h small =
    let room : i * out.vocab_size + out.vocab_size ≤ length out.logits =
      rw l (row_inside i out.vocab_size n h) in
    let start : leb u64_mod (i * out.vocab_size) ≡ false = ground arith in
    let end : leb u64_mod (i * out.vocab_size + out.vocab_size) ≡ false = ground arith in
    let ordered : ltb (i * out.vocab_size + out.vocab_size) (i * out.vocab_size) ≡ false =
      ground arith in
    let inside : ltb (length out.logits) (i * out.vocab_size + out.vocab_size) ≡ false =
      ground arith in
    let width : (i * out.vocab_size + out.vocab_size) - i * out.vocab_size ≡ out.vocab_size =
      omega arith in
    (
      cut out.logits (i * out.vocab_size) out.vocab_size,
      rw (start, end, ordered, inside, width) refl,
      length-cut out.logits (i * out.vocab_size) out.vocab_size room,
    )

module _ (f : Floats) (m : TransformerModel) (fits : ModelFits m) (ffn blocks : ℕ) where
  -- Where the forward pass answers its batch and the logits of the batch fit a machine word: for
  -- each place in the batch, `row` of the output gives a slice with one logit for each token of
  -- the vocabulary, so the engine can sample for each sequence it passed.
  pub forward-HasRow :
      (ws : WeightsShaped m.meta m.weights ffn) (kv : KvStore) (batch : ForwardBatch) (i : ℕ)
      → StoreFits m blocks kv
      → BatchFits m blocks batch
      → i < length batch.sequence_ids
      → length batch.sequence_ids * m.meta.vocab_size < u64_mod
      → Returns (λ answer. HasRow m.meta.vocab_size i answer.0) (forward f m kv batch)
  forward-HasRow ws kv batch i st b h small =
      Returns-weaken answers_row (forward-Answers f m fits ffn blocks ws kv batch st b)
    where
      answers_row :
          (answer : ForwardOutput × KvStore)
          → Answers m blocks batch answer
          → HasRow m.meta.vocab_size i answer.0
      answers_row answer a =
          subst (λ v. HasRow v i answer.0) a.vocab_size
            (row_there answer.0 (length batch.sequence_ids) i
              (a.logits ∙ ap (λ v. length batch.sequence_ids * v) (sym a.vocab_size)) h
              (subst (λ v. length batch.sequence_ids * v < u64_mod) (sym a.vocab_size) small))
