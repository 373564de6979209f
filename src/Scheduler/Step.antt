-- ===== src/Scheduler/Step.antt =====
-- crates/orion-scheduler/src/scheduler.rs: `schedule`, one step of the scheduler.
pub mod Consistent
use orion_serve_rs.Prelude.{ℕ, ◌+◌, if◌then◌else◌}
use orion_serve_rs.Core.Traits.{KvCacheManagerLike}
use orion_serve_rs.Scheduler.Output.{
  SchedulerOutput, empty_output, num_batched_tokens, count_tokens, ◌+u64◌,
}
use orion_serve_rs.Scheduler.State.{Scheduler}
use orion_serve_rs.Scheduler.Pass.{Pass, schedule_decodes}
use orion_serve_rs.Scheduler.Prefill.{schedule_prefills}

module _ {C : Type 0} ⦃k : KvCacheManagerLike C⦄ where
  abbrev pub start_pass : Scheduler C → Pass C
  start_pass s = record { sched = s; out = empty_output; used = 0 }

  unfoldable pub run_pass : ℕ → Scheduler C → Pass C
  unfolding schedule_decodes schedule_prefills
  run_pass now s =
      let budget = s.config.max_num_batched_tokens in
      if s.config.prioritize_decode
      then schedule_prefills now budget (schedule_decodes budget (start_pass s))
      else schedule_decodes budget (schedule_prefills now budget (start_pass s))

  -- Closes the step: the batch, and the scheduler with its counters.
  unfoldable pub schedule : ℕ → Scheduler C → SchedulerOutput × Scheduler C
  unfolding run_pass count_tokens
  schedule now s =
      let p = run_pass now s in
      let st = p.sched.stats in
      (
        p.out,
        record (p.sched) {
          stats = count_tokens p.out.scheduled (record st {
            total_steps = st.total_steps +u64 1;
            total_batched_tokens = st.total_batched_tokens +u64 num_batched_tokens p.out;
          });
        },
      )
