-- ===== src/Runtime/Batch/Total.antt =====
-- `build_batch` (crates/orion-runtime/src/engine.rs) on a consistent scheduler.
use orion_serve_rs.Prelude.{
  ℕ, zero, suc, ◌+◌, ◌≤◌, ◌<◌, ◌≡◌, refl, inl, inr, true, some, List, [], ◌∷◌, ◌++◌, arith, length,
  length-append, Option-cases, All,
}
use orion_serve_rs.Core.Error.{Result, ok}
use orion_serve_rs.Core.Batch.{ForwardBatch, sum, validate}
use orion_serve_rs.Core.Sequence.{Sequence, prompt_len}
use orion_serve_rs.KvCache.Manager.{KvCacheManager, raw_block_table, block_table}
use orion_serve_rs.KvCache.Trait.{manager_like, manager_laws}
use orion_serve_rs.Scheduler.Queue
use orion_serve_rs.Scheduler.Queue.{Queue}
use orion_serve_rs.Scheduler.Queue.Counts.{count_id}
use orion_serve_rs.Scheduler.Output.{ScheduledSequence, SchedulerOutput}
use orion_serve_rs.Scheduler.State.{Scheduler}
use orion_serve_rs.Scheduler.Step.Consistent.{Consistent}
use orion_serve_rs.Runtime.Batch.{
  empty_batch, positions_from, entry_tokens, push_entry, add_tokens, add_entry, add_entries,
  build_batch,
}

-- The parallel arrays agree.
pub record Aligned (b : ForwardBatch) : Type 0 where
  pub counts : length b.slot_token_counts ≡ length b.sequence_ids
  pub contexts : length b.context_lens ≡ length b.sequence_ids
  pub tables : length b.block_tables ≡ length b.sequence_ids
  pub placed : length b.positions ≡ length b.tokens
  pub summed : sum b.slot_token_counts ≡ length b.tokens

-- The check accepts just such batches.
pub validate-Aligned : (b : ForwardBatch) → Aligned b → validate b ≡ ok tt
unfolding validate
validate-Aligned b v = ground (arith, v.counts, v.contexts, v.tables, v.placed, v.summed)

sum-append : (xs ys : List ℕ) → sum (xs ++ ys) ≡ sum xs + sum ys
sum-append [] ys = omega arith
sum-append (x ∷ xs) ys = omega (sum-append xs ys, arith)

length-positions_from : (start count : ℕ) → length (positions_from start count) ≡ count
unfolding positions_from
length-positions_from start zero = refl
length-positions_from start (suc count) = omega (arith, length-positions_from (suc start) count)

push_entry-Aligned :
    (b : ForwardBatch) (e : ScheduledSequence) (table tokens : List ℕ)
    → Aligned b
    → Aligned (push_entry b e table tokens)
unfolding push_entry
push_entry-Aligned b e table tokens v = record {
  counts = omega (
    arith,
    v.counts,
    length-append b.slot_token_counts (length tokens ∷ []),
    length-append b.sequence_ids (e.id ∷ []),
  );
  contexts = omega (
    arith,
    v.contexts,
    length-append b.context_lens ((e.start_position + length tokens) ∷ []),
    length-append b.sequence_ids (e.id ∷ []),
  );
  tables = omega (
    arith,
    v.tables,
    length-append b.block_tables (table ∷ []),
    length-append b.sequence_ids (e.id ∷ []),
  );
  placed = omega (
    arith,
    v.placed,
    length-append b.positions (positions_from e.start_position (length tokens)),
    length-append b.tokens tokens,
    length-positions_from e.start_position (length tokens),
  );
  summed = omega (
    arith,
    v.summed,
    sum-append b.slot_token_counts (length tokens ∷ []),
    length-append b.tokens tokens,
  );
}

-- A running sequence is counted.
get-count_id : (q : Queue) (id : ℕ) (seq : Sequence) → Queue.get q id ≡ some seq → 0 < count_id id q
unfolding Queue.get
get-count_id [] id seq e = absurd (ground arith)
get-count_id (x ∷ q) id seq e = ground (arith, get-count_id q id seq)

-- A prefill entry starts within the prompt of its sequence.
abbrev pub Inside : Scheduler KvCacheManager → ScheduledSequence → Type 0
Inside s e =
    (seq : Sequence)
    → Queue.get s.running e.id ≡ some seq
    → e.is_prefill ≡ true
    → e.start_position ≤ prompt_len seq

-- A batch that was built, with its arrays agreeing.
abbrev Built : Result ForwardBatch → Type 0
Built r = (b : ForwardBatch) × (r ≡ ok b) × Aligned b

add_tokens-Built :
    (b : ForwardBatch) (e : ScheduledSequence) (table : List ℕ) (tokens : List ℕ)
    → Aligned b
    → Built (add_tokens b e table (some tokens))
unfolding add_tokens
add_tokens-Built b e table [] v = (b, refl, v)
add_tokens-Built b e table (t ∷ ts) v =
    (push_entry b e table (t ∷ ts), refl, push_entry-Aligned b e table (t ∷ ts) v)

entry_tokens-some :
    (e : ScheduledSequence) (seq : Sequence)
    → (e.is_prefill ≡ true → e.start_position ≤ prompt_len seq)
    → (tokens : List ℕ) × (entry_tokens e seq ≡ some tokens)
entry_tokens-some e seq inside = elim (Option-cases (entry_tokens e seq)) [
  | inl panics ↦ absurd (ground (arith, inside))
  | inr found ↦ found
]

module _ (s : Scheduler KvCacheManager) (v : Consistent manager_laws s) where
  has_table :
      (id : ℕ) (seq : Sequence)
      → Queue.get s.running id ≡ some seq
      → (table : List ℕ) × (raw_block_table s.cache id ≡ some table)
  has_table id seq e = elim (Option-cases (block_table s.cache id)) [
    | inl absent ↦ absurd (ground (arith, v.holding id, get-count_id s.running id seq e))
    | inr (t, found) ↦ (t.blocks, rw (found, raw_block_table))
  ]

  add_entry-Built :
      (e : ScheduledSequence) (b : ForwardBatch) → Inside s e → Aligned b → Built (add_entry s e b)
  unfolding add_entry
  add_entry-Built e b inside a = elim (Option-cases (Queue.get s.running e.id)) [
    | inl gone ↦ rw (gone, add_entry) (b, refl, a)
    | inr (seq, found) ↦
        let (table, has) = has_table e.id seq found in
        let (tokens, cut) = entry_tokens-some e seq (inside seq found) in
        rw (found, add_entry) (rw has (rw cut (add_tokens-Built b e table tokens a)))
  ]

  add_entries-Built :
      (es : List ScheduledSequence) (b : ForwardBatch)
      → All (Inside s) es
      → Aligned b
      → Built (add_entries s es b)
  unfolding add_entries
  add_entries-Built [] b inside a = (b, refl, a)
  add_entries-Built (e ∷ es) b inside a =
      let (b', run, a') = add_entry-Built e b inside.0 a in
      rw (run, add_entries) (add_entries-Built es b' inside.1 a')

  -- For a consistent scheduler over the real cache and a batch in which each prefill entry of a
  -- running sequence starts within its prompt, `build_batch` succeeds: no scheduled sequence that
  -- runs lacks a block table, and the flat batch passes `validate`, its parallel arrays agreeing
  -- in length and its token counts adding up.
  pub build_batch-Aligned :
      (out : SchedulerOutput)
      → All (Inside s) out.scheduled
      → (b : ForwardBatch) × (build_batch s out ≡ ok b) × Aligned b
  unfolding build_batch
  build_batch-Aligned out inside =
      let start : Aligned empty_batch = record {
        counts = refl;
        contexts = refl;
        tables = refl;
        placed = refl;
        summed = refl;
      } in
      let (b, run, a) = add_entries-Built out.scheduled empty_batch inside start in
      (b, rw (run, build_batch) (rw (validate-Aligned b a)), a)
