-- ===== src/Scheduler/State.antt =====
-- crates/orion-scheduler/src/scheduler.rs: the scheduler's state, admission and cancellation, over
-- any cache that implements the trait.
use orion_serve_rs.Prelude.{
  ℕ, ◌+◌, ◌%◌, Bool, true, false, not, ◌||◌, Option, none, some, [], ◌∷◌, if◌then◌else◌, ltb, leb,
  length,
}
use orion_serve_rs.Core.Error.{
  Result, ok, err, queue_full, context_length_exceeded, cache_exhausted,
}
use orion_serve_rs.Core.Sequence.{Sequence, prompt_len}
use orion_serve_rs.Core.Config.{SchedulerConfig}
use orion_serve_rs.Core.Traits.{KvCacheManagerLike}
use orion_serve_rs.Scheduler.Queue.{Queue, push_back}
use orion_serve_rs.Scheduler.Queue
use orion_serve_rs.Scheduler.Output.{SchedulerStats, no_stats, u64_mod, ◌+u64◌}

pub record Scheduler (C : Type 0) : Type 0 where
  pub config : SchedulerConfig
  pub waiting : Queue
  pub running : Queue
  pub cache : C
  pub stats : SchedulerStats

abbrev pub new : {C : Type 0} → SchedulerConfig → C → Scheduler C
new config cache = record {
  config = config;
  waiting = [];
  running = [];
  cache = cache;
  stats = no_stats;
}

abbrev is_empty : Queue → Bool
is_empty [] = true
is_empty (s ∷ q) = false

unfoldable pub has_work : {C : Type 0} → Scheduler C → Bool
has_work s = not (is_empty s.waiting) || not (is_empty s.running)

-- `usize::MAX` where no limit is set.
abbrev max_len_or : Option ℕ → ℕ
max_len_or none = 18446744073709551615
max_len_or (some n) = n

abbrev pub max_model_len : {C : Type 0} → Scheduler C → ℕ
max_model_len s = max_len_or s.config.max_model_len

-- `prompt_len + max_tokens` on a `usize` of 64 bits, which wraps in a release build.
abbrev pub requested_len : Sequence → ℕ
requested_len seq = (prompt_len seq + seq.params.max_tokens) % u64_mod

abbrev pub reject : {C : Type 0} → Scheduler C → Scheduler C
reject s = record s { stats = record (s.stats) { total_rejected = s.stats.total_rejected +u64 1 } }

abbrev pub admit : {C : Type 0} → Scheduler C → Sequence → Scheduler C
admit s seq = record s {
  waiting = push_back s.waiting seq;
  stats = record (s.stats) { total_admitted = s.stats.total_admitted +u64 1 };
}

module _ {C : Type 0} ⦃k : KvCacheManagerLike C⦄ where
  unfoldable pub add_request : Scheduler C → Sequence → Result ℕ × Scheduler C
  add_request s seq =
      if leb s.config.max_waiting_requests (length s.waiting)
      then (err (queue_full (length s.waiting) s.config.max_waiting_requests), reject s)
      else (if ltb (max_model_len s) (requested_len seq)
          then (
            err (context_length_exceeded (prompt_len seq) seq.params.max_tokens (max_model_len s)),
            reject s,
          )
          else (let blocks = k.blocks_needed_for s.cache (prompt_len seq) in
              if ltb (k.total_blocks s.cache) blocks
              then (err (cache_exhausted blocks (k.total_blocks s.cache)), reject s)
              else (ok seq.id, admit s seq)))

  unfoldable pub cancel_running : Scheduler C → ℕ → Option (Sequence × Queue) → Bool × Scheduler C
  cancel_running s id none = (false, s)
  cancel_running s id (some (seq, rest)) =
      (true, record s { running = rest; cache = k.free s.cache id })

  -- The cancelled sequence itself, with its finish reason, is dropped.
  unfoldable pub cancel : Scheduler C → ℕ → Bool × Scheduler C
  unfolding cancel_running
  cancel s id = elim (Queue.remove s.waiting id) [
    | some (seq, rest) ↦ (true, record s { waiting = rest })
    | none ↦ cancel_running s id (Queue.remove s.running id)
  ]
