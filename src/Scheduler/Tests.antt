-- ===== src/Scheduler/Tests.antt =====
-- The scheduler (crates/orion-scheduler) over the real cache, with blocks of two tokens.
use orion_serve_rs.Prelude.{
  ℕ, ◌≤◌, ◌≡◌, refl, true, false, none, some, [], ◌∷◌, List, map, take, arith, length,
}
use orion_serve_rs.Core.Sequence.{Sequence, SequenceState, default_params, waiting, is_finished}
use orion_serve_rs.Core.Sequence
use orion_serve_rs.Core.Config.{SchedulerConfig, recompute}
use orion_serve_rs.KvCache.Block
use orion_serve_rs.KvCache.Table.{blocks_required}
use orion_serve_rs.KvCache.Prefix
use orion_serve_rs.KvCache.Manager.{KvCacheManager}
use orion_serve_rs.KvCache.Manager
use orion_serve_rs.KvCache.Trait.{manager_like, manager_laws}
use orion_serve_rs.Scheduler.Queue
use orion_serve_rs.Scheduler.Queue.{take_finished, drain_where}
use orion_serve_rs.Scheduler.Queue.Finished.{take_finished-drain_where}
use orion_serve_rs.Scheduler.Output.{ScheduledSequence, num_batched_tokens}
use orion_serve_rs.Scheduler.State.{Scheduler, add_request, cancel}
use orion_serve_rs.Scheduler.State
use orion_serve_rs.Scheduler.Pass.{decode_candidates}
use orion_serve_rs.Scheduler.Pass.Sound.{IsIdle}
use orion_serve_rs.Scheduler.Prefill.{prefill_candidates, prefill_loop, prefill_rounds}
use orion_serve_rs.Scheduler.Prefill.Rounds.{RunsTo, prefill_loop_ends}
use orion_serve_rs.Scheduler.Step.{start_pass, schedule}
use orion_serve_rs.Scheduler.Step.Consistent.{
  Consistent, AllLive, known, schedule-Consistent, schedule_budget, schedule_custody,
}
use orion_serve_rs.Scheduler.Lifecycle.{on_token, expire_timeouts, reap_finished, commit_prefill}
use orion_serve_rs.Scheduler.Lifecycle.Consistent.{cancel-Consistent}
use orion_serve_rs.Scheduler.History.{
  History, settled, stirred, started, added, scheduled, took_token, Promise, History-Consistent,
}

abbrev pub config : SchedulerConfig
config = record {
  max_num_seqs = 2;
  max_num_batched_tokens = 4;
  max_model_len = none;
  enable_chunked_prefill = true;
  max_waiting_requests = 8;
  preemption_mode = recompute;
  request_timeout_secs = some 1;
  prioritize_decode = true;
}

abbrev pub m0 : KvCacheManager
m0 = Manager.new 4 2 true

abbrev pub seq : ℕ → Sequence
seq id = Sequence.new id 0 (11 ∷ 12 ∷ 13 ∷ []) (record default_params { max_tokens = 2 })

seq-IsIdle : (id : ℕ) → IsIdle (seq id)
unfolding Sequence.new
seq-IsIdle id = (refl, refl)

abbrev pub s0 : Scheduler KvCacheManager
s0 = State.new config m0

h0 : History manager_laws settled s0
unfolding Manager.new
h0 = started config m0 (λ a. refl)

-- Two requests arrive, and a step is made.
abbrev pub s1 : Scheduler KvCacheManager
s1 = (add_request s0 (seq 1)).1

fresh1 : known s0 (seq 1).id ≡ 0
unfolding Sequence.new
fresh1 = omega arith

h1 : History manager_laws settled s1
h1 = added (seq 1) fresh1 (seq-IsIdle 1) h0

unfoldable pub scheduler_runs : Unit {0}
unfolding Manager.new Sequence.new add_request cancel schedule on_token expire_timeouts
    reap_finished commit_prefill Block.new Block.allocate Block.set_contents blocks_required
    Prefix.lookup Manager.allocate Manager.chunks prefill_candidates decode_candidates
scheduler_runs = tt

fresh2 : known s1 (seq 2).id ≡ 0
unfolding scheduler_runs
fresh2 = refl

abbrev pub s2 : Scheduler KvCacheManager
s2 = (add_request s1 (seq 2)).1

h2 : History manager_laws settled s2
h2 = added (seq 2) fresh2 (seq-IsIdle 2) h1

abbrev pub s3 : Scheduler KvCacheManager
s3 = (schedule 5 s2).1

h3 : History manager_laws settled s3
h3 = scheduled 5 h2

abbrev s4 : Scheduler KvCacheManager
s4 = (on_token 6 s3 1 20 (20 ∷ [])).1

h4 : History manager_laws stirred s4
h4 = took_token 6 1 20 (20 ∷ []) h3

History-Consistent_example : Consistent manager_laws s4 × Promise manager_laws stirred s4
History-Consistent_example = History-Consistent manager_laws h4

-- The first sequence gets its whole prompt and the second one token of its own.
run_schedule : (length s2.waiting ≡ 2) × (num_batched_tokens (schedule 5 s2).0 ≡ 4)
unfolding scheduler_runs
run_schedule = (refl, refl)

s2-Consistent : Consistent manager_laws s2
s2-Consistent = (History-Consistent manager_laws h2).0

s2-AllLive : AllLive s2
s2-AllLive = (History-Consistent manager_laws h2).1

pub s3-Consistent : Consistent manager_laws s3
s3-Consistent = (History-Consistent manager_laws h3).0

s4-Consistent : Consistent manager_laws s4
s4-Consistent = (History-Consistent manager_laws h4).0

schedule-Consistent_example : Consistent manager_laws s3 × AllLive s3
schedule-Consistent_example = schedule-Consistent manager_laws 5 s2 s2-Consistent s2-AllLive

schedule_budget_example : num_batched_tokens (schedule 5 s2).0 ≤ s2.config.max_num_batched_tokens
schedule_budget_example = schedule_budget 5 s2

schedule_custody_example : known s3 2 ≡ known s2 2
schedule_custody_example = schedule_custody 5 s2 2

prefill_loop_ends_example :
    RunsTo 4 5 (start_pass s2) (prefill_loop 5 4 (prefill_rounds 4 (start_pass s2)) (start_pass s2))
prefill_loop_ends_example = prefill_loop_ends 4 5 (start_pass s2)

cancel-Consistent_example : Consistent manager_laws (cancel s3 1).1 × (known (cancel s3 1).1 1 ≡ 0)
cancel-Consistent_example = cancel-Consistent manager_laws s3 s3-Consistent 1

take_finished-drain_where_example : take_finished s4.running ≡ drain_where is_finished s4.running
take_finished-drain_where_example = take_finished-drain_where s4.running

eviction_runs : Unit {0}
unfolding scheduler_runs Sequence.transition_to Sequence.can_transition_to Sequence.preempt
    Queue.pop_newest Manager.append_token Manager.free Block.release
eviction_runs = tt

abbrev tight : SchedulerConfig
tight = record config { max_num_seqs = 4; max_num_batched_tokens = 16 }

abbrev full : ℕ → Sequence
full id = Sequence.new id 0 (11 ∷ 12 ∷ 13 ∷ 14 ∷ []) (record default_params { max_tokens = 4 })

abbrev scheduled_ids : Scheduler KvCacheManager → List ℕ
scheduled_ids s = map (λ (e : ScheduledSequence). e.id) (schedule 9 s).0.scheduled

-- Two sequences of two full blocks each before a pool of three blocks.
abbrev t0 : Scheduler KvCacheManager
t0 = (add_request (add_request (State.new tight (Manager.new 3 2 false)) (full 1)).1 (full 2)).1

-- Sequence 2 does not fit, which evicts sequence 1 from the batch that it has just joined; it is
-- admitted again at once, until the token budget is spent.
run_evictions :
    (scheduled_ids t0 ≡ 1 ∷ 1 ∷ 1 ∷ 1 ∷ []) × ((schedule 9 t0).0.preempted ≡ 1 ∷ 1 ∷ 1 ∷ [])
unfolding eviction_runs
run_evictions = (refl, refl)

-- Three sequences of two full blocks each fill a pool of six blocks.
abbrev u0 : Scheduler KvCacheManager
u0 =
    (add_request
      (add_request (add_request (State.new tight (Manager.new 6 2 false)) (full 1)).1 (full 2)).1
      (full 3)).1

abbrev u1 : Scheduler KvCacheManager
u1 = (schedule 5 u0).1

-- Sequence 3 is evicted for the first; then its own turn fails for want of a table, which evicts
-- sequence 2 from the batch that it is in already.
run_stale_candidate :
    (take 3 (scheduled_ids u1) ≡ 1 ∷ 2 ∷ 2 ∷ []) × (take 2 (schedule 9 u1).0.preempted ≡ 3 ∷ 2 ∷ [])
unfolding eviction_runs
run_stale_candidate = (refl, refl)
