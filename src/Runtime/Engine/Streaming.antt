-- ===== src/Runtime/Engine/Streaming.antt =====
-- The streams of the engine (crates/orion-runtime/src/engine.rs) in a step.
use orion_serve_rs.Prelude.{
  ℕ, suc, ◌+◌, ◌≡◌, ◌∙◌, refl, inl, inr, Bool, true, false, Option, none, some, List, [], ◌∷◌,
  arith, ==_refl, Option-cases, if_elim, count,
}
use orion_serve_rs.Prelude.Assoc
use orion_serve_rs.Core.Error.{Result, ok, err}
use orion_serve_rs.Core.Forward.{ForwardOutput, row}
use orion_serve_rs.Core.Sequence.{Sequence, FinishReason, all_tokens, timeout}
use orion_serve_rs.KvCache.Manager.{KvCacheManager}
use orion_serve_rs.KvCache.Trait.{manager_like}
use orion_serve_rs.Scheduler.Queue
use orion_serve_rs.Scheduler.Queue.Counts.{count_id}
use orion_serve_rs.Scheduler.Output.{ScheduledSequence, SchedulerOutput}
use orion_serve_rs.Scheduler.State.{Scheduler}
use orion_serve_rs.Scheduler.Step.{schedule}
use orion_serve_rs.Scheduler.Step.Consistent.{known, schedule_custody}
use orion_serve_rs.Scheduler.Lifecycle.{on_token, expire_timeouts, reap_finished}
use orion_serve_rs.Scheduler.Lifecycle.Known.{
  on_token-known, expire_timeouts-known, commit_prefill-known, reap_finished-known,
}
use orion_serve_rs.Runtime.Batch.{build_batch}
use orion_serve_rs.Runtime.Engine.{
  Engine, ActiveRequest, Services, token_event, is_terminal, streams,
}
use orion_serve_rs.Runtime.Engine.Calls.{reap_each, reap}
use orion_serve_rs.Runtime.Engine.Step.{
  finish_if, after_send, emit_token, after_sample, sample_and_emit, is_incomplete, emit_row,
  and_then, emit_rows, commit_prefills, expire_each, expire, run_batch, step,
}
use orion_serve_rs.Runtime.Engine.Streams.{
  Streaming, no_slack, reschedule, loosen, streams-present, streams-insert, continued,
  close-Streaming, finish_request-Streaming, refused-Streaming,
}

module _ {S : Type 0} (w : Services S) where
  abbrev Good : Engine S → Type 0
  Good e = Streaming no_slack e

  -- A new sampler for an active request.
  resampled :
      (e : Engine S) (id : ℕ) (req : ActiveRequest S)
      → Good e
      → streams e id ≡ 1
      → Good (record e { active = Assoc.insert id req e.active })
  resampled e id req v here = record {
    fresh = v.fresh;
    once = v.once;
    accounts = λ a. ground (arith, v.accounts a, streams-insert e id req a, here);
    closed = v.closed;
    tracked = λ a. ground (arith, v.tracked a, streams-insert e id req a, here);
  }

  finish_if-Streaming :
      (e : Engine S) (id : ℕ) (reason : Option FinishReason)
      → Good e
      → Good (finish_if w e id reason)
  finish_if-Streaming e id none v = v
  finish_if-Streaming e id (some r) v = finish_request-Streaming w no_slack e id r (loosen id e v)

  after_send-Streaming :
      (e : Engine S) (id token index : ℕ) (reason : Option FinishReason) (taken : Bool)
      → Good e
      → streams e id ≡ 1
      → Good (
          after_send w id reason (
            taken,
            record e {
              sent =
                  (record { to = id; event = token_event token "" index; delivered = taken })
                  ∷ e.sent;
            },
          ))
  unfolding is_terminal
  after_send-Streaming e id token index reason false v here = refused-Streaming w e _ v here refl
  after_send-Streaming e id token index reason true v here =
      finish_if-Streaming _ id reason (continued e _ v here refl)

  emit_token-Streaming :
      (now : ℕ) (e : Engine S) (id index token : ℕ)
      → Good e
      → streams e id ≡ 1
      → Good (emit_token w now e id index token)
  unfolding emit_token
  emit_token-Streaming now e id index token v here =
      let (reason, s) = on_token now e.scheduler id token e.eos_ids in
      after_send-Streaming (record e { scheduler = s }) id token index reason _
        (reschedule no_slack e s
          (λ a. omega (arith, on_token-known e.scheduler now id token e.eos_ids a)) v)
        here

  after_sample-Streaming :
      (now : ℕ) (e : Engine S) (id : ℕ) (req : ActiveRequest S) (index : ℕ) (r : Result ℕ × S)
      → Good e
      → streams e id ≡ 1
      → Good (after_sample w now e id req index r).1
  unfolding after_sample
  after_sample-Streaming now e id req index (err x, sampler) v here = resampled e id _ v here
  after_sample-Streaming now e id req index (ok token, sampler) v here =
      emit_token-Streaming now _ id index token (resampled e id _ v here)
        (streams-insert e id _ id ∙ rw (==_refl id) refl)

  sample_and_emit-Streaming :
      (now : ℕ) (e : Engine S) (id : ℕ) (logits : List ℕ)
      → Good e
      → Good (sample_and_emit w now e id logits).1
  unfolding sample_and_emit
  sample_and_emit-Streaming now e id logits v =
      elim (Option-cases (Queue.get e.scheduler.running id)) [
        | inl gone ↦ rw (gone, sample_and_emit) v
        | inr (seq, found) ↦ elim (Option-cases (Assoc.lookup id e.active)) [
          | inl dropped ↦ rw (found, sample_and_emit) (rw dropped v)
          | inr (req, live) ↦
              rw (found, sample_and_emit)
                (rw live (
                  after_sample-Streaming now e id req _
                    (w.sample req.sampler logits (all_tokens seq) seq.params) v
                    (streams-present e id req live)))
        ]
      ]

  emit_row-Streaming :
      (now : ℕ) (out : ForwardOutput) (i id : ℕ) (e : Engine S)
      → Good e
      → Good (emit_row w now out i id e).1
  unfolding emit_row
  emit_row-Streaming now out i id e v =
      if_elim (λ (r : Result (Unit {0}) × Engine S). Good r.1)
        (is_incomplete w (Queue.get e.scheduler.running id)) (λ _. v)
        (λ _. elim (Option-cases (row out i)) [
          | inl missing ↦ rw missing v
          | inr (logits, there) ↦ rw there (sample_and_emit-Streaming now e id logits v)
        ])

  and_then-Streaming :
      {A B : Type 0} (r : Result A × Engine S) (rest : A → Engine S → Result B × Engine S)
      → Good r.1
      → ((a : A) (e : Engine S) → Good e → Good (rest a e).1)
      → Good (and_then w r rest).1
  and_then-Streaming (ok a, e) rest v after = after a e v
  and_then-Streaming (err x, e) rest v after = v

  emit_rows-Streaming :
      (clock : ℕ → ℕ) (out : ForwardOutput) (i : ℕ) (ids : List ℕ) (e : Engine S)
      → Good e
      → Good (emit_rows w clock out i ids e).1
  unfolding emit_rows
  emit_rows-Streaming clock out i [] e v = v
  emit_rows-Streaming clock out i (id ∷ ids) e v =
      and_then-Streaming (emit_row w (clock i) out i id e) _
        (emit_row-Streaming (clock i) out i id e v) (λ _. emit_rows-Streaming clock out (suc i) ids)

  commit_prefills-known :
      (xs : List ScheduledSequence) (s : Scheduler KvCacheManager) (a : ℕ)
      → known (commit_prefills w xs s) a ≡ known s a
  unfolding commit_prefills
  commit_prefills-known [] s a = refl
  commit_prefills-known (x ∷ xs) s a =
      commit_prefills-known xs _ a
      ∙ if_elim (λ (t : Scheduler KvCacheManager). known t a ≡ known s a) x.is_prefill
          (λ _. commit_prefill-known s x.id a) (λ _. refl)

  reap_each-Streaming :
      (ss : List Sequence) (e : Engine S)
      → Streaming (λ a. count_id a ss) e
      → Good (reap_each w ss e)
  unfolding reap_each
  reap_each-Streaming [] e v = v
  reap_each-Streaming (s ∷ ss) e v =
      reap_each-Streaming ss _ (close-Streaming w (λ a. count_id a ss) e s.id _ _ v)

  reap-Streaming : (e : Engine S) → Good e → Good (reap w e)
  unfolding reap
  reap-Streaming e v = reap_each-Streaming (reap_finished e.scheduler).0 _ (
      reschedule (λ a. count_id a (reap_finished e.scheduler).0) e (reap_finished e.scheduler).1
        (λ a. omega (arith, reap_finished-known e.scheduler a)) v)

  expire_each-Streaming :
      (ids : List ℕ) (e : Engine S) → Streaming (λ a. count a ids) e → Good (expire_each w ids e)
  unfolding expire_each
  expire_each-Streaming [] e v = v
  expire_each-Streaming (id ∷ ids) e v =
      expire_each-Streaming ids _ (finish_request-Streaming w (λ a. count a ids) e id timeout v)

  expire-Streaming : (now : ℕ) (e : Engine S) → Good e → Good (expire w now e)
  unfolding expire
  expire-Streaming now e v =
      let r = expire_timeouts now e.scheduler in
      expire_each-Streaming r.0 _ (
        reschedule (λ a. count a r.0) e r.1
          (λ a. omega (arith, expire_timeouts-known e.scheduler now a)) v)

  run_batch-Streaming :
      (clock : ℕ → ℕ) (out : SchedulerOutput) (e : Engine S)
      → Good e
      → Good (run_batch w clock out e).1
  unfolding run_batch
  run_batch-Streaming clock out e v =
      and_then-Streaming (build_batch e.scheduler out, e) _ v
        (λ batch e1 v1.
          and_then-Streaming (w.forward (clock 1) batch, e1) _ v1
            (λ fwd e2 v2.
              and_then-Streaming (emit_rows w (λ i. clock (i + 2)) fwd 0 fwd.sequence_ids e2) _
                (emit_rows-Streaming (λ i. clock (i + 2)) fwd 0 fwd.sequence_ids e2 v2)
                (λ _ e3 v3. reap-Streaming _ (
                  reschedule no_slack e3 (commit_prefills w out.scheduled e3.scheduler)
                    (λ a. omega (arith, commit_prefills-known out.scheduled e3.scheduler a)) v3))))

  pub step-Streaming : (clock : ℕ → ℕ) (e : Engine S) → Good e → Good (step w clock e).1
  unfolding step
  step-Streaming clock e v =
      let e1 = expire w (clock 0) e in
      let r = schedule (clock 1) e1.scheduler in
      let v2 =
        reschedule no_slack e1 r.1 (λ a. omega (arith, schedule_custody (clock 1) e1.scheduler a))
          (expire-Streaming (clock 0) e v) in
      if_elim (λ (t : Result ℕ × Engine S). Good t.1) _
        (λ _. reap-Streaming (record e1 { scheduler = r.1 }) v2)
        (λ _. run_batch-Streaming clock r.0 (record e1 { scheduler = r.1 }) v2)
