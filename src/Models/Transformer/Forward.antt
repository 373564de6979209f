-- ===== src/Models/Transformer/Forward.antt =====
-- crates/orion-models/src/transformer.rs: `TransformerModel::forward`, from the flat batch to the
-- logits.
pub mod Parts
pub mod Total
pub mod Logits
use orion_serve_rs.Prelude.{
  ℕ, zero, suc, ◌+◌, ◌-◌, ◌*◌, Option, none, some, List, [], ◌∷◌, ◌++◌, if◌then◌else◌, ◌==◌, not,
  length, get_elem?, replicate,
}
use orion_serve_rs.Core.Error.{Result, ok, err, internal}
use orion_serve_rs.Core.Batch.{ForwardBatch, validate}
use orion_serve_rs.Core.Forward.{ForwardOutput}
use orion_serve_rs.Models.Run.{Run, returned, failed, panic, ◌>>=◌, ◌>>◌, ok_or, expect}
use orion_serve_rs.Models.Float.{Floats}
use orion_serve_rs.Models.Store.{KvStore}
use orion_serve_rs.Models.Attention.{locate}
use orion_serve_rs.Models.Tensor.{Matrix, row, linear, rms_norm}
use orion_serve_rs.Models.Transformer.{
  LayerWeights, TransformerModel, PhysicalSlot, head_of, embed, layer_forward,
}

abbrev pub of_result : {A : Type 0} → Result A → Run A
of_result (ok a) = returned a
of_result (err e) = failed e

-- For each sequence from `seq` on, its number as often as it has tokens.
abbrev pub rows_of : ℕ → List ℕ → List ℕ
rows_of seq [] = []
rows_of seq (n ∷ counts) = replicate n seq ++ rows_of (suc seq) counts

-- Where the entry of each row goes. The lists stand at the same row.
abbrev pub slots_of : List (List ℕ) → ℕ → List ℕ → List ℕ → Run (List PhysicalSlot)
slots_of tables block_size seqs [] = returned []
slots_of tables block_size [] (pos ∷ positions) = panic
slots_of tables block_size (seq ∷ seqs) (pos ∷ positions) =
    expect (get_elem? tables seq) >>= λ table. locate table pos block_size >>= λ found.
    ok_or found (internal "position has no block in the table") >>= λ place.
    slots_of tables block_size seqs positions >>= λ rest. returned (place ∷ rest)

-- The last row of each sequence.
abbrev pub last_rows_from : ℕ → List ℕ → Run (List ℕ)
last_rows_from cursor [] = returned []
last_rows_from cursor (n ∷ counts) =
    if n == 0
    then failed (internal "a scheduled sequence contributed zero tokens")
    else (last_rows_from (cursor + n) counts >>= λ rest. returned ((cursor + n - 1) ∷ rest))

-- The rows of a matrix, one after the other; a row of another width panics where it is copied.
abbrev pub gather : Matrix → ℕ → List ℕ → Run (List ℕ)
gather hidden width [] = returned []
gather hidden width (i ∷ rows) = row hidden i >>= λ found.
    ok_or found (internal "row missing from hidden states") >>= λ src.
    if not (length src == width)
    then panic
    else (gather hidden width rows >>= λ rest. returned (src ++ rest))

module _ (f : Floats) where
  -- The blocks from `layer` on.
  abbrev pub layers_from :
      TransformerModel
      → KvStore
      → ℕ
      → ℕ
      → Matrix
      → List ℕ
      → List PhysicalSlot
      → List ℕ
      → List (List ℕ)
      → List ℕ
      → Run (Matrix × KvStore)
  layers_from m kv layer zero hidden positions slots seqs tables contexts = returned (hidden, kv)
  layers_from m kv layer (suc left) hidden positions slots seqs tables contexts =
      expect (get_elem? m.weights.layers layer) >>= λ w.
      layer_forward f m kv layer w hidden positions slots seqs tables contexts >>= λ next.
      layers_from m next.1 (suc layer) left next.0 positions slots seqs tables contexts

  -- The logits of the last row of each sequence.
  abbrev pub logits_of : TransformerModel → Matrix → List ℕ → Run (List ℕ)
  logits_of m hidden counts = do
    normed ← rms_norm f hidden m.weights.final_norm m.meta.rms_norm_eps
    rows ← last_rows_from 0 counts
    xs ← gather normed m.meta.hidden_size rows
    logits ←
        linear f (record { elements = xs; rows = length rows; cols = m.meta.hidden_size })
          (head_of m.weights) none
    returned logits.elements

  abbrev pub output_of : TransformerModel → List ℕ → List ℕ → ForwardOutput
  output_of m sequence_ids logits = record {
    logits = logits;
    vocab_size = m.meta.vocab_size;
    sequence_ids = sequence_ids;
  }

  -- The pass over a batch with tokens in it.
  abbrev pub forward_tokens :
      TransformerModel → KvStore → ForwardBatch → Run (ForwardOutput × KvStore)
  forward_tokens m kv batch = do
    slots ←
        slots_of batch.block_tables m.block_size (rows_of 0 batch.slot_token_counts) batch.positions
    hidden ← embed m batch.tokens
    end ←
        layers_from m kv 0 m.meta.num_layers hidden batch.positions slots
          (rows_of 0 batch.slot_token_counts) batch.block_tables batch.context_lens
    logits ← logits_of m end.0 batch.slot_token_counts
    returned (output_of m batch.sequence_ids logits, end.1)

  -- The output, and the store after the pass.
  unfoldable pub forward : TransformerModel → KvStore → ForwardBatch → Run (ForwardOutput × KvStore)
  unfolding embed layer_forward
  forward m kv batch =
      of_result (validate batch)
      >> (if length batch.tokens == 0
          then returned (output_of m [] [], kv)
          else forward_tokens m kv batch)

-- `(1..=n)`, from `i` on.
abbrev pub ids_from : ℕ → ℕ → List ℕ
ids_from i zero = []
ids_from i (suc left) = i ∷ ids_from (suc i) left

abbrev pub sequence_ids : ℕ → List ℕ
sequence_ids n = ids_from 1 n
