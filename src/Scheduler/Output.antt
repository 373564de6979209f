-- ===== src/Scheduler/Output.antt =====
-- crates/orion-scheduler/src/scheduler.rs: the batch of one step, and the counters.
use orion_serve_rs.Prelude.{
  ℕ, ◌+◌, ◌%◌, Bool, true, false, ◌&&◌, List, [], ◌∷◌, if◌then◌else◌, ltb, length,
}
use orion_serve_rs.Core.Sequence.{FinishReason}

pub record ScheduledSequence : Type 0 where
  pub id : ℕ
  pub num_tokens : ℕ
  pub start_position : ℕ
  pub is_prefill : Bool

pub record SchedulerOutput : Type 0 where
  pub scheduled : List ScheduledSequence
  pub preempted : List ℕ
  pub finished : List (ℕ × FinishReason)

abbrev pub empty_output : SchedulerOutput
empty_output = record { scheduled = []; preempted = []; finished = [] }

abbrev pub is_empty : SchedulerOutput → Bool
is_empty o = elim o.scheduled [ [] ↦ true | _ ∷ _ ↦ false ]

abbrev pub tokens_of : List ScheduledSequence → ℕ
tokens_of [] = 0
tokens_of (s ∷ ss) = s.num_tokens + tokens_of ss

abbrev pub num_batched_tokens : SchedulerOutput → ℕ
num_batched_tokens o = tokens_of o.scheduled

abbrev pub prefills_of : List ScheduledSequence → ℕ
prefills_of [] = 0
prefills_of (s ∷ ss) = (if s.is_prefill then 1 else 0) + prefills_of ss

abbrev pub decodes_of : List ScheduledSequence → ℕ
decodes_of [] = 0
decodes_of (s ∷ ss) = (if s.is_prefill then 0 else 1) + decodes_of ss

abbrev pub num_sequences : SchedulerOutput → ℕ
num_sequences o = length o.scheduled

abbrev pub num_prefill_sequences : SchedulerOutput → ℕ
num_prefill_sequences o = prefills_of o.scheduled

abbrev pub num_decode_sequences : SchedulerOutput → ℕ
num_decode_sequences o = decodes_of o.scheduled

abbrev pub is_mixed : SchedulerOutput → Bool
is_mixed o = ltb 0 (num_prefill_sequences o) && ltb 0 (num_decode_sequences o)

pub record SchedulerStats : Type 0 where
  pub total_steps : ℕ
  pub total_admitted : ℕ
  pub total_finished : ℕ
  pub total_preempted : ℕ
  pub total_rejected : ℕ
  pub total_batched_tokens : ℕ
  pub total_prefill_tokens : ℕ
  pub total_decode_tokens : ℕ

abbrev pub no_stats : SchedulerStats
no_stats = record {
  total_steps = 0;
  total_admitted = 0;
  total_finished = 0;
  total_preempted = 0;
  total_rejected = 0;
  total_batched_tokens = 0;
  total_prefill_tokens = 0;
  total_decode_tokens = 0;
}

abbrev pub u64_mod : ℕ
u64_mod = 18446744073709551616

-- `+=` on a `u64`.
infixl 65 ◌+u64◌
abbrev pub ◌+u64◌ : ℕ → ℕ → ℕ
a +u64 b = (a + b) % u64_mod

-- The loop over the batch that counts its tokens.
unfoldable pub count_tokens : List ScheduledSequence → SchedulerStats → SchedulerStats
count_tokens [] stats = stats
count_tokens (s ∷ ss) stats = count_tokens ss (
    if s.is_prefill
    then record stats { total_prefill_tokens = stats.total_prefill_tokens +u64 s.num_tokens }
    else record stats { total_decode_tokens = stats.total_decode_tokens +u64 s.num_tokens })
