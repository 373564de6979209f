-- ===== src/Scheduler/Pass.antt =====
-- crates/orion-scheduler/src/scheduler.rs: a scheduling pass: preemption, and one token for each
-- running sequence.
pub mod Keeps
pub mod Steady
pub mod Sound
use orion_serve_rs.Prelude.{
  ℕ, zero, suc, ◌+◌, ◌-◌, ◌*◌, min, Bool, true, false, not, ◌&&◌, ◌||◌, Option, none, some, List,
  [], ◌∷◌, ◌++◌, if◌then◌else◌, ltb, leb, ◌==◌, length,
}
use orion_serve_rs.Core.Error.{Result, ok, err}
use orion_serve_rs.Core.Sequence.{
  Sequence, SequenceState, prefilling, decoding, state_eq, prompt_len, total_len, remaining_prefill,
  is_prefill_complete, advance_prefill, transition_to, preempt,
}
use orion_serve_rs.Core.Sequence
use orion_serve_rs.Core.Config.{SchedulerConfig}
use orion_serve_rs.Core.Traits.{KvCacheManagerLike}
use orion_serve_rs.Scheduler.Queue.{Queue, push_front, peek}
use orion_serve_rs.Scheduler.Queue
use orion_serve_rs.Scheduler.Output.{
  ScheduledSequence, SchedulerOutput, empty_output, num_batched_tokens, count_tokens, ◌+u64◌,
}
use orion_serve_rs.Scheduler.State.{Scheduler}

-- The scheduler in the middle of a step, with `out` and `used`.
pub record Pass (C : Type 0) : Type 0 where
  pub sched : Scheduler C
  pub out : SchedulerOutput
  pub used : ℕ

-- Running sequences that decode, with their lengths.
unfoldable pub decode_candidates : Queue → List (ℕ × ℕ)
decode_candidates [] = []
decode_candidates (s ∷ q) =
    if state_eq s.state decoding
    then (s.id, total_len s) ∷ decode_candidates q
    else decode_candidates q

abbrev pub decode_entry : ℕ → ℕ → ScheduledSequence
decode_entry id total = record {
  id = id;
  num_tokens = 1;
  start_position = total;
  is_prefill = false;
}

-- One more entry of the batch.
abbrev pub emit : {C : Type 0} → Pass C → ScheduledSequence → Pass C
emit p e = record p {
  out = record (p.out) { scheduled = p.out.scheduled ++ e ∷ [] };
  used = p.used + e.num_tokens;
}

abbrev pub with_cache : {C : Type 0} → Pass C → C → Pass C
with_cache p c = record p { sched = record (p.sched) { cache = c } }

module _ {C : Type 0} ⦃k : KvCacheManagerLike C⦄ where
  unfoldable pub evict : Pass C → Sequence → Queue → Pass C
  evict p victim rest = record p {
    sched = record (p.sched) {
      running = rest;
      waiting = push_front p.sched.waiting (preempt victim).1;
      cache = k.free p.sched.cache victim.id;
      stats = record (p.sched.stats) { total_preempted = p.sched.stats.total_preempted +u64 1 };
    };
    out = record (p.out) { preempted = p.out.preempted ++ victim.id ∷ [] };
  }

  -- The flag says whether a sequence was evicted.
  unfoldable pub preempt_one : Pass C → Bool × Pass C
  unfolding evict
  preempt_one p = elim (Queue.pop_newest p.sched.running) [
    | none ↦ (false, p)
    | some (victim, rest) ↦ (true, evict p victim rest)
  ]

  -- The batch entry where the cache has room for the token, and what else is to be done.
  unfoldable pub after_append :
      ℕ → ℕ → Pass C → (Pass C → Bool × Pass C) → Result (Unit {0}) × C → Bool × Pass C
  after_append id total p otherwise (ok _, c) =
      (true, emit (with_cache p c) (decode_entry id total))
  after_append id total p otherwise (err _, c) = otherwise (with_cache p c)

  -- The second try, after an eviction; `false` where nothing was left to evict.
  unfoldable pub retry_decode : ℕ → ℕ → Bool × Pass C → Bool × Pass C
  unfolding after_append
  retry_decode id total (false, p) = (false, p)
  retry_decode id total (true, p) =
      after_append id total p (λ q. (true, q)) (k.append_token p.sched.cache id)

  -- One decode; `false` ends the loop.
  unfoldable pub decode_one : ℕ → ℕ → Pass C → Bool × Pass C
  unfolding preempt_one retry_decode after_append
  decode_one id total p =
      after_append id total p (λ q. retry_decode id total (preempt_one q))
        (k.append_token p.sched.cache id)

  -- Goes on after a round, or breaks.
  abbrev pub and_then : Bool × Pass C → (Pass C → Pass C) → Pass C
  and_then (true, p) rest = rest p
  and_then (false, p) rest = p

  unfoldable pub decode_loop : ℕ → List (ℕ × ℕ) → Pass C → Pass C
  decode_loop budget [] p = p
  decode_loop budget ((id, total) ∷ cs) p = elim (leb budget p.used) [
    | true ↦ p
    | false ↦ and_then (decode_one id total p) (decode_loop budget cs)
  ]

  unfoldable pub schedule_decodes : ℕ → Pass C → Pass C
  unfolding decode_loop decode_one
  schedule_decodes budget p = decode_loop budget (decode_candidates p.sched.running) p
