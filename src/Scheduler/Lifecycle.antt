-- ===== src/Scheduler/Lifecycle.antt =====
-- crates/orion-scheduler/src/scheduler.rs: tokens, stop conditions, retirement and deadlines.
pub mod Consistent
pub mod Known
use orion_serve_rs.Prelude.{
  ℕ, ◌+◌, ◌-◌, ◌*◌, Bool, true, false, ◌&&◌, ◌||◌, Option, none, some, List, [], ◌∷◌, ◌++◌, map,
  if◌then◌else◌, ltb, leb, ◌==◌, length,
}
use orion_serve_rs.Core.Sequence.{
  Sequence, FinishReason, stop, length_reached, timeout, SamplingParams, is_prefill_complete,
  push_token, finish, reached_max_tokens, may_stop_on_eos,
}
use orion_serve_rs.Core.Traits.{KvCacheManagerLike}
use orion_serve_rs.Scheduler.Queue.{Queue}
use orion_serve_rs.Scheduler.Queue
use orion_serve_rs.Scheduler.Output.{◌+u64◌}
use orion_serve_rs.Scheduler.State.{Scheduler}

abbrev pub contains : List ℕ → ℕ → Bool
contains [] t = false
contains (x ∷ xs) t = if x == t then true else contains xs t

unfoldable pub stop_reason : Sequence → ℕ → List ℕ → SamplingParams → Option FinishReason
stop_reason seq token eos_ids params =
    if (contains eos_ids token || contains params.stop_token_ids token) && may_stop_on_eos seq
    then some stop
    else (if reached_max_tokens seq then some length_reached else none)

-- The sequence after a token, with the reason where it stopped.
unfoldable pub take_token : ℕ → ℕ → List ℕ → Sequence → Option FinishReason × Sequence
take_token now token eos_ids seq =
    let pushed = push_token seq now token in
    elim (stop_reason pushed token eos_ids pushed.params) [
      | none ↦ (none, pushed)
      | some r ↦ (some r, finish pushed now r)
    ]

unfoldable pub on_token :
    {C : Type 0} → ℕ → Scheduler C → ℕ → ℕ → List ℕ → Option FinishReason × Scheduler C
unfolding take_token
on_token now s id token eos_ids = elim (Queue.get s.running id) [
  | none ↦ (none, s)
  | some seq ↦ (
    (take_token now token eos_ids seq).0,
    record s { running = Queue.update s.running id (λ x. (take_token now token eos_ids x).1) },
  )
]

-- Sequences past the deadline are finished where they run.
abbrev pub expire_one : ℕ → ℕ → Sequence → Sequence
expire_one now limit s = if ltb limit (now - s.timings.arrived_at) then finish s now timeout else s

abbrev pub is_late : ℕ → ℕ → Sequence → Bool
is_late now limit s = ltb limit (now - s.timings.arrived_at)

abbrev pub ids : Queue → List ℕ
ids = map (λ s. s.id)

pub late_ids : ℕ → ℕ → Queue → List ℕ
late_ids now limit [] = []
late_ids now limit (s ∷ q) =
    if is_late now limit s then s.id ∷ late_ids now limit q else late_ids now limit q

abbrev pub expire_by : {C : Type 0} → ℕ → ℕ → Scheduler C → List ℕ × Scheduler C
expire_by now limit s =
    let (late, kept) = Queue.drain_where (is_late now limit) s.waiting in
    (
      late_ids now limit s.running ++ ids late,
      record s { running = map (expire_one now limit) s.running; waiting = kept },
    )

-- Times are in nanoseconds, the configured limit in seconds.
unfoldable pub expire_timeouts : {C : Type 0} → ℕ → Scheduler C → List ℕ × Scheduler C
unfolding late_ids
expire_timeouts now s = elim s.config.request_timeout_secs [
  | none ↦ ([], s)
  | some secs ↦ expire_by now (secs * 1000000000) s
]

module _ {C : Type 0} ⦃k : KvCacheManagerLike C⦄ where
  -- `for seq in &finished { self.cache.free(seq.id()); }`
  pub free_each : List Sequence → C → C
  free_each [] c = c
  free_each (s ∷ ss) c = free_each ss (k.free c s.id)

  unfoldable pub reap_finished : Scheduler C → List Sequence × Scheduler C
  unfolding free_each
  reap_finished s =
      let (finished, rest) = Queue.take_finished s.running in
      (
        finished,
        record s {
          running = rest;
          cache = free_each finished s.cache;
          stats = record (s.stats) { total_finished = s.stats.total_finished +u64 length finished };
        },
      )

  -- Only a complete prefill is published.
  unfoldable pub commit_prefill : Scheduler C → ℕ → Scheduler C
  commit_prefill s id = elim (Queue.get s.running id) [
    | none ↦ s
    | some seq ↦
        if is_prefill_complete seq
        then record s { cache = k.commit_prefill s.cache id seq.prompt }
        else s
  ]
