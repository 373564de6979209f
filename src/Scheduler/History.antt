-- ===== src/Scheduler/History.antt =====
-- Histories of the scheduler (crates/orion-scheduler/src/scheduler.rs): the calls that the engine and
-- its clients make, in any order in which finished sequences are retired before a step.
use orion_serve_rs.Prelude.{
  ℕ, ◌≡◌, refl, inl, inr, false, List, arith, leb, ltb, length, Option-cases, if_elim,
}
use orion_serve_rs.Core.Error.{Result}
use orion_serve_rs.Core.Sequence.{Sequence}
use orion_serve_rs.Core.Config.{SchedulerConfig}
use orion_serve_rs.Core.Traits.{KvCacheManagerLike, CacheLaws}
use orion_serve_rs.Scheduler.Queue
use orion_serve_rs.Scheduler.Queue.All.{All-remove}
use orion_serve_rs.Scheduler.State.{
  Scheduler, new, add_request, cancel, cancel_running, max_model_len, requested_len,
}
use orion_serve_rs.Scheduler.Pass.Sound.{IsIdle, IsLive}
use orion_serve_rs.Scheduler.Step.{schedule}
use orion_serve_rs.Scheduler.Step.Consistent.{Consistent, AllLive, known, schedule-Consistent}
use orion_serve_rs.Scheduler.Lifecycle.{on_token, expire_timeouts, reap_finished, commit_prefill}
use orion_serve_rs.Scheduler.Lifecycle.Consistent.{
  add_request-Consistent, cancel-Consistent, on_token-Consistent, expire_timeouts-Consistent,
  commit_prefill-Consistent, reap_finished-Consistent,
}

-- Whether a finished sequence may still stand in the running set.
pub data Phase : Type 0 where
  settled stirred : Phase

module _ {C : Type 0} ⦃k : KvCacheManagerLike C⦄ (l : CacheLaws k) where
  -- The states that calls lead to, from a cache that holds nothing.
  pub data History : Phase → Scheduler C → Type 0 where
    started :
        (config : SchedulerConfig) (cache : C)
        → ((a : ℕ) → l.holds cache a ≡ false)
        → History settled (new config cache)
    added :
        {ph : Phase} {s : Scheduler C} (seq : Sequence)
        → known s seq.id ≡ 0
        → IsIdle seq
        → History ph s
        → History ph (add_request s seq).1
    cancelled : {ph : Phase} {s : Scheduler C} (id : ℕ) → History ph s → History ph (cancel s id).1
    scheduled : {s : Scheduler C} (now : ℕ) → History settled s → History settled (schedule now s).1
    took_token :
        {ph : Phase} {s : Scheduler C} (now id token : ℕ) (eos : List ℕ)
        → History ph s
        → History stirred (on_token now s id token eos).1
    expired :
        {ph : Phase} {s : Scheduler C} (now : ℕ)
        → History ph s
        → History stirred (expire_timeouts now s).1
    committed :
        {ph : Phase} {s : Scheduler C} (id : ℕ) → History ph s → History ph (commit_prefill s id)
    reaped : {ph : Phase} {s : Scheduler C} → History ph s → History settled (reap_finished s).1

  -- What the phase promises.
  abbrev pub Promise : Phase → Scheduler C → Type 0
  Promise settled s = AllLive s
  Promise stirred s = Unit

  Promise-keep :
      (ph : Phase) (s t : Scheduler C) → (AllLive s → AllLive t) → Promise ph s → Promise ph t
  Promise-keep settled s t f h = f h
  Promise-keep stirred s t f h = tt

  add_request-AllLive :
      (s : Scheduler C) (seq : Sequence) → AllLive s → AllLive (add_request s seq).1
  unfolding add_request
  add_request-AllLive s seq h =
      if_elim Outcome (leb s.config.max_waiting_requests (length s.waiting)) (λ _. h)
        (λ _.
          if_elim Outcome (ltb (max_model_len s) (requested_len seq)) (λ _. h)
            (λ _.
              if_elim Outcome
                (ltb (k.total_blocks s.cache) (k.blocks_needed_for s.cache (length seq.prompt)))
                (λ _. h) (λ _. h)))
    where
      Outcome : Result ℕ × Scheduler C → Type 0
      Outcome r = AllLive r.1

  cancel-AllLive : (s : Scheduler C) (id : ℕ) → AllLive s → AllLive (cancel s id).1
  unfolding cancel cancel_running
  cancel-AllLive s id h = elim (Option-cases (Queue.remove s.waiting id)) [
    | inr (r, e) ↦ rw (e, cancel) h
    | inl e ↦ elim (Option-cases (Queue.remove s.running id)) [
      | inl e' ↦ rw (e, cancel) (rw (e', cancel_running) h)
      | inr ((seq, rest), e') ↦
          rw (e, cancel) (rw (e', cancel_running) (All-remove IsLive s.running id seq rest e' h))
    ]
  ]

  commit_prefill-AllLive : (s : Scheduler C) (id : ℕ) → AllLive s → AllLive (commit_prefill s id)
  unfolding commit_prefill
  commit_prefill-AllLive s id h = elim (Option-cases (Queue.get s.running id)) [
    | inl e ↦ rw (e, commit_prefill) h
    | inr (seq, e) ↦ rw (e, commit_prefill) (if_elim AllLive _ (λ _. h) (λ _. h))
  ]

  -- Along every history (admissions of waiting sequences under ids not in use, cancellations,
  -- steps, tokens, deadlines, commits and retirements, a step only while no token was taken and no
  -- deadline was applied since the last retirement) over a cache that keeps the trait's laws, the
  -- scheduler is consistent: no id stands twice in the queues, exactly the running sequences hold
  -- blocks, waiting sequences have nothing computed, no running one is in the waiting state, and
  -- the running set fits its slots. While the phase is settled every running sequence is
  -- prefilling or decoding.
  pub History-Consistent :
      {ph : Phase} {s : Scheduler C} → History ph s → Consistent l s × Promise ph s
  History-Consistent (started config cache empty) = (
    record {
      unique = λ a. omega arith;
      holding = λ a. rw (empty a) refl;
      idle = tt;
      busy = tt;
      slots = omega arith;
    },
    tt,
  )
  History-Consistent (added {ph = ph} {s = s} seq fresh idle h) =
      let (v, p) = History-Consistent h in
      (
        add_request-Consistent l s v seq fresh idle,
        Promise-keep ph s _ (add_request-AllLive s seq) p,
      )
  History-Consistent (cancelled {ph = ph} {s = s} id h) =
      let (v, p) = History-Consistent h in
      ((cancel-Consistent l s v id).0, Promise-keep ph s _ (cancel-AllLive s id) p)
  History-Consistent (scheduled {s = s} now h) =
      let (v, p) = History-Consistent h in schedule-Consistent l now s v p
  History-Consistent (took_token {s = s} now id token eos h) =
      let (v, p) = History-Consistent h in (on_token-Consistent l s v now id token eos, tt)
  History-Consistent (expired {s = s} now h) =
      let (v, p) = History-Consistent h in (expire_timeouts-Consistent l s v now, tt)
  History-Consistent (committed {ph = ph} {s = s} id h) =
      let (v, p) = History-Consistent h in
      (commit_prefill-Consistent l s v id, Promise-keep ph s _ (commit_prefill-AllLive s id) p)
  History-Consistent (reaped {s = s} h) =
      let (v, p) = History-Consistent h in reap_finished-Consistent l s v
