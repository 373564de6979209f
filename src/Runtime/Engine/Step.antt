-- ===== src/Runtime/Engine/Step.antt =====
-- crates/orion-runtime/src/engine.rs: one step of the engine.
use orion_serve_rs.Prelude.{
  ℕ, suc, ◌+◌, ◌-◌, Bool, true, false, not, Option, none, some, List, [], ◌∷◌, if◌then◌else◌,
  length,
}
use orion_serve_rs.Prelude.Assoc
use orion_serve_rs.Core.Error.{Result, ok, err, internal}
use orion_serve_rs.Core.Forward.{ForwardOutput, num_sequences, row}
use orion_serve_rs.Core.Sequence.{Sequence, FinishReason, timeout, all_tokens, is_prefill_complete}
use orion_serve_rs.KvCache.Manager.{KvCacheManager}
use orion_serve_rs.KvCache.Trait.{manager_like}
use orion_serve_rs.Scheduler.Queue
use orion_serve_rs.Scheduler.Output.{ScheduledSequence, SchedulerOutput, is_empty}
use orion_serve_rs.Scheduler.State.{Scheduler}
use orion_serve_rs.Scheduler.Step.{schedule}
use orion_serve_rs.Scheduler.Lifecycle.{on_token, expire_timeouts, commit_prefill}
use orion_serve_rs.Runtime.Batch.{build_batch}
use orion_serve_rs.Runtime.Engine.{Engine, ActiveRequest, Services, token_event}
use orion_serve_rs.Runtime.Engine.Calls.{send, finish_request, cancel_silently, reap}

module _ {S : Type 0} (w : Services S) where
  abbrev pub finish_if : Engine S → ℕ → Option FinishReason → Engine S
  finish_if e id none = e
  finish_if e id (some r) = finish_request w e id r

  -- A caller that is gone or behind loses its request.
  abbrev pub after_send : ℕ → Option FinishReason → Bool × Engine S → Engine S
  after_send id reason (false, e) = cancel_silently w e id
  after_send id reason (true, e) = finish_if e id reason

  unfoldable pub emit_token : ℕ → Engine S → ℕ → ℕ → ℕ → Engine S
  unfolding on_token finish_request cancel_silently
  emit_token now e id index token =
      let (reason, s) = on_token now e.scheduler id token e.eos_ids in
      after_send id reason (send w (record e { scheduler = s }) id (token_event token "" index))

  -- The sampler after the call is kept, whatever it returned.
  unfoldable pub after_sample :
      ℕ → Engine S → ℕ → ActiveRequest S → ℕ → Result ℕ × S → Result (Unit {0}) × Engine S
  unfolding emit_token
  after_sample now e id req index (err x, sampler) =
      (err x, record e { active = Assoc.insert id (record req { sampler = sampler }) e.active })
  after_sample now e id req index (ok token, sampler) = (
    ok tt,
    emit_token now
        (record e { active = Assoc.insert id (record req { sampler = sampler }) e.active }) id index
        token,
  )

  unfoldable pub sample_and_emit : ℕ → Engine S → ℕ → List ℕ → Result (Unit {0}) × Engine S
  unfolding after_sample
  sample_and_emit now e id logits = elim (Queue.get e.scheduler.running id) [
    | none ↦ (ok tt, e)
    | some seq ↦ elim (Assoc.lookup id e.active) [
      | none ↦ (ok tt, e)
      | some req ↦
          after_sample now e id req (length (all_tokens seq) - req.prompt_len)
            (w.sample req.sampler logits (all_tokens seq) seq.params)
    ]
  ]

  abbrev pub is_incomplete : Option Sequence → Bool
  is_incomplete none = false
  is_incomplete (some s) = not (is_prefill_complete s)

  -- A sequence that is still prefilling gets no token; a row that is missing ends the step.
  unfoldable pub emit_row : ℕ → ForwardOutput → ℕ → ℕ → Engine S → Result (Unit {0}) × Engine S
  unfolding sample_and_emit
  emit_row now out i id e =
      if is_incomplete (Queue.get e.scheduler.running id) then (ok tt, e) else elim (row out i) [
        | none ↦ (err (internal "forward output has no row"), e)
        | some logits ↦ sample_and_emit now e id logits
      ]

  -- `?`
  abbrev pub and_then {ℓ} :
      {A B : Type ℓ}
      → Result A × Engine S
      → (A → Engine S → Result B × Engine S)
      → Result B × Engine S
  and_then (ok a, e) rest = rest a e
  and_then (err x, e) rest = (err x, e)

  -- The clock gives the time of each row.
  unfoldable pub emit_rows :
      (ℕ → ℕ) → ForwardOutput → ℕ → List ℕ → Engine S → Result (Unit {0}) × Engine S
  unfolding emit_row
  emit_rows clock out i [] e = (ok tt, e)
  emit_rows clock out i (id ∷ ids) e =
      and_then (emit_row (clock i) out i id e) (λ _. emit_rows clock out (suc i) ids)

  unfoldable pub commit_prefills :
      List ScheduledSequence → Scheduler KvCacheManager → Scheduler KvCacheManager
  unfolding commit_prefill
  commit_prefills [] s = s
  commit_prefills (x ∷ xs) s =
      commit_prefills xs (if x.is_prefill then commit_prefill s x.id else s)

  unfoldable pub expire_each : List ℕ → Engine S → Engine S
  unfolding finish_request
  expire_each [] e = e
  expire_each (id ∷ ids) e = expire_each ids (finish_request w e id timeout)

  unfoldable pub expire : ℕ → Engine S → Engine S
  unfolding expire_each expire_timeouts
  expire now e =
      let (late, s) = expire_timeouts now e.scheduler in
      expire_each late (record e { scheduler = s })

  -- The batch of a step: the forward pass, the tokens, the published prefills, the retirement.
  unfoldable pub run_batch : (ℕ → ℕ) → SchedulerOutput → Engine S → Result ℕ × Engine S
  unfolding build_batch emit_rows commit_prefills reap
  run_batch clock out e =
      and_then (build_batch e.scheduler out, e)
        (λ batch e1.
          and_then (w.forward (clock 1) batch, e1)
            (λ fwd e2. and_then (emit_rows (λ i. clock (i + 2)) fwd 0 fwd.sequence_ids e2) (λ _ e3.
              (
                ok (num_sequences fwd),
                reap w (record e3 { scheduler = commit_prefills out.scheduled e3.scheduler }),
              ))))

  -- Readings 0 and 1 of the clock are those of the deadlines and of the schedule.
  unfoldable pub step : (ℕ → ℕ) → Engine S → Result ℕ × Engine S
  unfolding expire schedule run_batch reap
  step clock e =
      let e1 = expire (clock 0) e in
      let (out, s) = schedule (clock 1) e1.scheduler in
      let e2 = record e1 { scheduler = s } in
      if is_empty out then (ok 0, reap w e2) else run_batch clock out e2
