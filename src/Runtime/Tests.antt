-- ===== src/Runtime/Tests.antt =====
-- The engine's batch (crates/orion-runtime/src/engine.rs) at a concrete step.
use orion_serve_rs.Prelude.{◌≡◌, All, arith}
use orion_serve_rs.Core.Error.{ok}
use orion_serve_rs.Core.Batch.{ForwardBatch}
use orion_serve_rs.KvCache.Trait.{manager_like}
use orion_serve_rs.Scheduler.Step.{schedule}
use orion_serve_rs.Scheduler.Output.{SchedulerOutput}
use orion_serve_rs.Scheduler.Tests.{s2, s3, s3-Consistent, scheduler_runs}
use orion_serve_rs.Runtime.Batch.{build_batch}
use orion_serve_rs.Runtime.Batch.Total.{Aligned, Inside, build_batch-Aligned}

abbrev out : SchedulerOutput
out = (schedule 5 s2).0

out-Inside : All (Inside s3) out.scheduled
unfolding scheduler_runs
out-Inside = (λ seq found prefill. omega arith, (λ seq found prefill. omega arith, tt))

build_batch-Aligned_example : (b : ForwardBatch) × (build_batch s3 out ≡ ok b) × Aligned b
build_batch-Aligned_example = build_batch-Aligned s3 s3-Consistent out out-Inside
