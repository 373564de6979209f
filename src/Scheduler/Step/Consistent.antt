-- ===== src/Scheduler/Step/Consistent.antt =====
-- The scheduler's invariant (crates/orion-scheduler/src/scheduler.rs), and `schedule` under it.
use orion_serve_rs.Prelude.{
  ℕ, ◌+◌, ◌≤◌, ◌≡◌, refl, ap, false, List, [], ◌∷◌, arith, if◌then◌else◌, length, if_elim, All,
}
use orion_serve_rs.Core.Sequence.{Sequence, SequenceState, is_active}
use orion_serve_rs.Core.Sequence
use orion_serve_rs.Core.Traits.{KvCacheManagerLike, CacheLaws}
use orion_serve_rs.Scheduler.Queue.Counts.{count_id}
use orion_serve_rs.Scheduler.Output.{num_batched_tokens}
use orion_serve_rs.Scheduler.State.{Scheduler}
use orion_serve_rs.Scheduler.Pass.{Pass}
use orion_serve_rs.Scheduler.Pass.Keeps.{Keeps, keep-schedule_decodes}
use orion_serve_rs.Scheduler.Pass.Steady.{Steady, Steady-Keeps}
use orion_serve_rs.Scheduler.Pass.Sound.{Sound, IsIdle, IsLive, Sound-Keeps}
use orion_serve_rs.Scheduler.Prefill.Keeps.{keep-schedule_prefills}
use orion_serve_rs.Scheduler.Step.{start_pass, run_pass, schedule}

-- A running sequence does not wait.
abbrev pub IsBusy : Sequence → Type 0
IsBusy s = Sequence.state_eq s.state SequenceState.waiting ≡ false

pub IsLive-IsBusy : (s : Sequence) → IsLive s → IsBusy s
unfolding is_active
IsLive-IsBusy s h = ground arith

pub All-IsBusy : (q : List Sequence) → All IsLive q → All IsBusy q
All-IsBusy [] h = tt
All-IsBusy (s ∷ q) h = (IsLive-IsBusy s h.0, All-IsBusy q h.1)

-- How often an id stands in the two queues.
abbrev pub known : {C : Type 0} → Scheduler C → ℕ → ℕ
known s a = count_id a s.waiting + count_id a s.running

-- Every running sequence is prefilling or decoding.
abbrev pub AllLive : {C : Type 0} → Scheduler C → Type 0
AllLive s = All IsLive s.running

module _ {C : Type 0} ⦃k : KvCacheManagerLike C⦄ where
  -- Both orders of the two halves keep what each half keeps.
  keep-run_pass :
      {P : Pass C → Type 0} (s : Scheduler C)
      → Keeps s.config.max_num_batched_tokens P
      → (now : ℕ) → P (start_pass s)
      → P (run_pass now s)
  unfolding run_pass
  keep-run_pass {P = P} s h now start =
      if_elim P s.config.prioritize_decode
        (λ _. keep-schedule_prefills h now _ (keep-schedule_decodes h (start_pass s) start))
        (λ _. keep-schedule_decodes h _ (keep-schedule_prefills h now (start_pass s) start))

  start_pass-Steady :
      (s : Scheduler C) → Steady s.config s.config.max_num_batched_tokens (known s) (start_pass s)
  start_pass-Steady s = record {
    config_kept = refl;
    custody = λ a. refl;
    spent = refl;
    within = omega arith;
  }

  run_pass-Steady :
      (now : ℕ) (s : Scheduler C)
      → Steady s.config s.config.max_num_batched_tokens (known s) (run_pass now s)
  run_pass-Steady now s = keep-run_pass s Steady-Keeps now (start_pass-Steady s)

  -- From any state of the scheduler and over any cache, the batch of a step has at most
  -- `max_num_batched_tokens` tokens.
  pub schedule_budget :
      (now : ℕ) (s : Scheduler C)
      → num_batched_tokens (schedule now s).0 ≤ s.config.max_num_batched_tokens
  unfolding schedule
  schedule_budget now s = let q = run_pass-Steady now s in omega (arith, q.spent, q.within)

  -- From any state of the scheduler and over any cache, a step leaves each id in the two queues as
  -- often as it was: preemption, admission and failed allocation lose and double no sequence.
  pub schedule_custody :
      (now : ℕ) (s : Scheduler C) (a : ℕ) → known (schedule now s).1 a ≡ known s a
  unfolding schedule
  schedule_custody now s a = (run_pass-Steady now s).custody a

module _ {C : Type 0} ⦃k : KvCacheManagerLike C⦄ (l : CacheLaws k) where
  -- No id stands twice, exactly the running sequences hold blocks, a waiting sequence has nothing
  -- computed, and the running set fits its slots.
  pub record Consistent (s : Scheduler C) : Type 0 where
    pub unique : (a : ℕ) → known s a ≤ 1
    pub holding : (a : ℕ) → (if l.holds s.cache a then 1 else 0) ≡ count_id a s.running
    pub idle : All IsIdle s.waiting
    pub busy : All IsBusy s.running
    pub slots : length s.running ≤ s.config.max_num_seqs

  module _ (now : ℕ) (s : Scheduler C) (v : Consistent s) (live : AllLive s) where
    run_pass-Sound : Sound l s.config s.config.max_num_batched_tokens (known s) (run_pass now s)
    run_pass-Sound = keep-run_pass s (Sound-Keeps l v.unique) now (record {
      steady = start_pass-Steady s;
      holding = v.holding;
      idle = v.idle;
      live = live;
      slots = v.slots;
    })

    -- From a consistent scheduler whose running sequences are all prefilling or decoding, over a
    -- cache that keeps the trait's laws, one step leads to such a scheduler again, whatever the
    -- cache refuses and whatever is preempted.
    pub schedule-Consistent : Consistent (schedule now s).1 × AllLive (schedule now s).1
    unfolding schedule
    schedule-Consistent =
        let q = run_pass-Sound in
        (
          record {
            unique = λ a. omega (arith, q.steady.custody a, v.unique a);
            holding = q.holding;
            idle = q.idle;
            busy = All-IsBusy _ q.live;
            slots = omega (arith, q.slots, ap (λ c. c.max_num_seqs) q.steady.config_kept);
          },
          q.live,
        )
