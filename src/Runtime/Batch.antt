-- ===== src/Runtime/Batch.antt =====
-- crates/orion-runtime/src/engine.rs: `Engine::build_batch`, which lays the batch of a step out flat.
pub mod Total
use orion_serve_rs.Prelude.{
  ℕ, zero, suc, ◌+◌, ◌-◌, ◌%◌, min, Bool, true, false, ◌||◌, Option, none, some, List, [], ◌∷◌,
  ◌++◌, if◌then◌else◌, ltb, length, take, drop, get_last?,
}
use orion_serve_rs.Core.Error.{Result, ok, err, internal}
use orion_serve_rs.Core.Batch.{ForwardBatch, validate}
use orion_serve_rs.Core.Sequence.{Sequence, prompt_len}
use orion_serve_rs.KvCache.Block.{u32_mod}
use orion_serve_rs.KvCache.Manager.{KvCacheManager, raw_block_table}
use orion_serve_rs.Scheduler.Queue
use orion_serve_rs.Scheduler.Output.{ScheduledSequence, SchedulerOutput}
use orion_serve_rs.Scheduler.State.{Scheduler}

abbrev pub empty_batch : ForwardBatch
empty_batch = record {
  tokens = [];
  positions = [];
  sequence_ids = [];
  slot_token_counts = [];
  context_lens = [];
  block_tables = [];
  has_prefill = false;
}

-- `(start..start + count).map(|p| p as u32)`
pub positions_from : ℕ → ℕ → List ℕ
positions_from start zero = []
positions_from start (suc count) = (start % u32_mod) ∷ positions_from (suc start) count

-- `xs[start..end]`, which panics where `end` is below `start` or past the end of `xs`.
abbrev pub slice : List ℕ → ℕ → ℕ → Option (List ℕ)
slice xs start end =
    if ltb end start || ltb (length xs) end then none else some (take (end - start) (drop start xs))

abbrev pub to_list : Option ℕ → List ℕ
to_list none = []
to_list (some t) = t ∷ []

abbrev pub newest_token : Option ℕ → List ℕ → List ℕ
newest_token (some t) prompt = t ∷ []
newest_token none prompt = to_list (get_last? prompt)

-- The chunk of a prefill, or the newest token; `none` where the slice panics.
abbrev pub entry_tokens : ScheduledSequence → Sequence → Option (List ℕ)
entry_tokens e seq =
    if e.is_prefill
    then slice seq.prompt e.start_position (min (e.start_position + e.num_tokens) (prompt_len seq))
    else some (newest_token (get_last? seq.output) seq.prompt)

unfoldable pub push_entry : ForwardBatch → ScheduledSequence → List ℕ → List ℕ → ForwardBatch
unfolding positions_from
push_entry b e table tokens = record {
  tokens = b.tokens ++ tokens;
  positions = b.positions ++ positions_from e.start_position (length tokens);
  sequence_ids = b.sequence_ids ++ e.id ∷ [];
  slot_token_counts = b.slot_token_counts ++ length tokens ∷ [];
  context_lens = b.context_lens ++ (e.start_position + length tokens) ∷ [];
  block_tables = b.block_tables ++ table ∷ [];
  has_prefill = b.has_prefill || e.is_prefill;
}

-- An entry without tokens is passed over.
unfoldable pub add_tokens :
    ForwardBatch → ScheduledSequence → List ℕ → Option (List ℕ) → Result ForwardBatch
unfolding push_entry
add_tokens b e table none = err (internal "slice index out of range")
add_tokens b e table (some []) = ok b
add_tokens b e table (some (t ∷ ts)) = ok (push_entry b e table (t ∷ ts))

abbrev pub add_running :
    ForwardBatch → ScheduledSequence → Sequence → Option (List ℕ) → Result ForwardBatch
add_running b e seq none = err (internal "was scheduled without a block table")
add_running b e seq (some table) = add_tokens b e table (entry_tokens e seq)

-- One round of the loop; a sequence that does not run any more is passed over.
unfoldable pub add_entry :
    Scheduler KvCacheManager → ScheduledSequence → ForwardBatch → Result ForwardBatch
unfolding add_tokens
add_entry s e b = elim (Queue.get s.running e.id) [
  | none ↦ ok b
  | some seq ↦ add_running b e seq (raw_block_table s.cache e.id)
]

abbrev pub and_then :
    Result ForwardBatch → (ForwardBatch → Result ForwardBatch) → Result ForwardBatch
and_then (ok b) rest = rest b
and_then (err e) rest = err e

unfoldable pub add_entries :
    Scheduler KvCacheManager → List ScheduledSequence → ForwardBatch → Result ForwardBatch
unfolding add_entry
add_entries s [] b = ok b
add_entries s (e ∷ es) b = and_then (add_entry s e b) (add_entries s es)

-- `batch.validate()?; Ok(batch)`
abbrev pub checked : ForwardBatch → Result (Unit {0}) → Result ForwardBatch
checked b (ok _) = ok b
checked b (err e) = err e

unfoldable pub build_batch : Scheduler KvCacheManager → SchedulerOutput → Result ForwardBatch
unfolding add_entries validate
build_batch s out = and_then (add_entries s out.scheduled empty_batch) (λ b. checked b (validate b))
