-- ===== src/Runtime/Engine/Contract.antt =====
-- What the engine (crates/orion-runtime/src/engine.rs) promises its callers, along every run of its
-- thread.
use orion_serve_rs.Prelude.{
  ℕ, suc, ◌+◌, ◌≤◌, ◌≡◌, ap, refl, inl, inr, Bool, true, false, Option, none, some, List, [], ◌∷◌,
  arith, if◌then◌else◌, ◌==◌, length, if_elim,
}
use orion_serve_rs.Core.Error.{Result, ok, err}
use orion_serve_rs.Core.Sampling.{validate}
use orion_serve_rs.Core.Sequence.{Sequence, SamplingParams, cancelled}
use orion_serve_rs.Core.Sequence
use orion_serve_rs.KvCache.Manager.{KvCacheManager}
use orion_serve_rs.KvCache.Trait.{manager_like}
use orion_serve_rs.Scheduler.Queue.{Queue}
use orion_serve_rs.Scheduler.Queue.Counts.{count_id}
use orion_serve_rs.Scheduler.State.{Scheduler, add_request, has_work}
use orion_serve_rs.Scheduler.State
use orion_serve_rs.Scheduler.Step.Consistent.{known}
use orion_serve_rs.Scheduler.Lifecycle.Known.{Kept, add_request-Kept, cancel-known, cancel_refused}
use orion_serve_rs.Runtime.Engine.{Engine, Services, ends, accepted, new}
use orion_serve_rs.Runtime.Engine.Calls.{
  after_add, submit_valid, after_validate, submit, after_cancel, cancel,
}
use orion_serve_rs.Runtime.Engine.Serve.{
  Command, generate, cancel_command, stats_command, shutdown, Turn, handle, and_on, drain, wait,
  turn, serve,
}
use orion_serve_rs.Runtime.Engine.Streams.{
  Streaming, no_slack, bump, reschedule, streams-insert, close-Streaming,
}
use orion_serve_rs.Runtime.Engine.Streaming.{step-Streaming}

idle_known : {C : Type 0} (s : Scheduler C) → has_work s ≡ false → (a : ℕ) → known s a ≡ 0
unfolding has_work
idle_known s idle a = empty s.waiting s.running idle
  where
    empty :
        (p q : Queue)
        → has_work (record s { waiting = p; running = q }) ≡ false
        → count_id a p + count_id a q ≡ 0
    empty [] [] h = refl
    empty [] (x ∷ q) h = absurd (ground arith)
    empty (x ∷ p) q h = absurd (ground arith)

module _ {S : Type 0} (w : Services S) where
  abbrev Good : Engine S → Type 0
  Good e = Streaming no_slack e

  rejected :
      (e : Engine S) (r : Result ℕ)
      → ((a : ℕ) → accepted a (r ∷ []) ≡ 0)
      → Good e
      → Good (record e { replies = r ∷ e.replies })
  rejected e r unnamed v = record {
    fresh = λ a h. omega (arith, v.fresh a h, unnamed a);
    once = λ a. omega (arith, v.once a, unnamed a);
    accounts = λ a. omega (arith, v.accounts a, unnamed a);
    closed = v.closed;
    tracked = v.tracked;
  }

  after_add-Streaming :
      (e : Engine S) (params : SamplingParams) (n : ℕ) (r : Result ℕ × Scheduler KvCacheManager)
      → Good e
      → Kept e.scheduler e.next_id r
      → Good (after_add w (record e { next_id = suc e.next_id }) params n r)
  unfolding after_add
  after_add-Streaming e params n (ok id, s) v (same, more) = record {
    fresh = λ a h. ground (arith, v.fresh a, same, h);
    once = λ a. ground (arith, v.fresh a, v.once a, same);
    accounts = λ a. ground (
      arith,
      v.fresh a,
      v.accounts a,
      same,
      streams-insert e id (record { sampler = w.for_params params; prompt_len = n }) a,
    );
    closed = v.closed;
    tracked = λ a. ground (
      arith,
      v.tracked a,
      more a,
      same,
      streams-insert e id (record { sampler = w.for_params params; prompt_len = n }) a,
    );
  }
  after_add-Streaming e params n (err x, s) v more = record {
    fresh = λ a h. omega (arith, v.fresh a (omega (arith, h)));
    once = λ a. omega (arith, v.once a);
    accounts = λ a. omega (arith, v.accounts a);
    closed = v.closed;
    tracked = λ a. omega (arith, v.tracked a, more a);
  }

  after_validate-Streaming :
      (now : ℕ) (e : Engine S) (prompt : List ℕ) (params : SamplingParams) (r : Result (Unit {0}))
      → Good e
      → Good (after_validate w now e prompt params r)
  unfolding after_validate submit_valid Sequence.new
  after_validate-Streaming now e prompt params (err x) v = rejected e (err x) (λ a. refl) v
  after_validate-Streaming now e prompt params (ok _) v =
      after_add-Streaming e params (length prompt) _ v
        (add_request-Kept e.scheduler (Sequence.new e.next_id now prompt params))

  after_cancel-Streaming :
      (e : Engine S) (id : ℕ) (r : Bool × Scheduler KvCacheManager)
      → Good e
      → ((r.0 ≡ false) → r.1 ≡ e.scheduler)
      → ((a : ℕ) → known e.scheduler a ≤ (if id == a then 1 else 0) + known r.1 a)
      → Good (after_cancel w e id r)
  after_cancel-Streaming e id (false, s) v same more =
      reschedule no_slack e s (λ a. omega (arith, ap (λ t. known t a) (same refl))) v
  after_cancel-Streaming e id (true, s) v same more =
      close-Streaming w no_slack (record e { scheduler = s }) id cancelled 0
        (reschedule (bump id no_slack) e s (λ a. omega (arith, more a)) v)

  cancel-Streaming : (e : Engine S) (id : ℕ) → Good e → Good (cancel w e id)
  unfolding cancel
  cancel-Streaming e id v =
      after_cancel-Streaming e id (State.cancel e.scheduler id) v
        (λ refused. elim (cancel_refused e.scheduler id) [
          | inl done ↦ absurd (ground (arith, done, refused))
          | inr same ↦ same
        ])
        (cancel-known e.scheduler id)

  handle-Streaming : (now : ℕ) (c : Command) (e : Engine S) → Good e → Good (handle w now c e).1
  unfolding handle submit
  handle-Streaming now (generate prompt params) e v =
      after_validate-Streaming now e prompt params (validate params) v
  handle-Streaming now (cancel_command id) e v = cancel-Streaming e id v
  handle-Streaming now stats_command e v = record {
    fresh = v.fresh;
    once = v.once;
    accounts = v.accounts;
    closed = v.closed;
    tracked = v.tracked;
  }
  handle-Streaming now shutdown e v = v

  and_on-Streaming :
      (r : Bool × Engine S) (rest : Engine S → Bool × Engine S)
      → Good r.1
      → ((e : Engine S) → Good e → Good (rest e).1)
      → Good (and_on w r rest).1
  and_on-Streaming (true, e) rest v after = after e v
  and_on-Streaming (false, e) rest v after = v

  drain-Streaming :
      (now : ℕ) (cs : List Command) (e : Engine S) → Good e → Good (drain w now cs e).1
  unfolding drain
  drain-Streaming now [] e v = v
  drain-Streaming now (c ∷ cs) e v =
      and_on-Streaming (handle w now c e) _ (handle-Streaming now c e v) (drain-Streaming now cs)

  wait-Streaming : (now : ℕ) (c : Option Command) (e : Engine S) → Good e → Good (wait w now c e).1
  wait-Streaming now none e v = v
  wait-Streaming now (some c) e v = handle-Streaming now c e v

  abbrev Good' : Bool × Engine S → Type 0
  Good' r = Good r.1

  turn-Streaming : (t : Turn) (e : Engine S) → Good e → Good (turn w t e).1
  unfolding turn
  turn-Streaming t e v =
      and_on-Streaming (drain w (t.clock 0) t.pending e) _
        (drain-Streaming (t.clock 0) t.pending e v)
        (λ e1 v1.
          if_elim Good' t.is_connected
            (λ _.
              if_elim Good' (has_work e1.scheduler) (λ _. step-Streaming w t.clock e1 v1)
                (λ _. wait-Streaming (t.clock 0) t.next e1 v1))
            (λ _. v1))

  serve-Streaming : (ts : List Turn) (e : Engine S) → Good e → Good (serve w ts e)
  unfolding serve
  serve-Streaming [] e v = v
  serve-Streaming (t ∷ ts) e v =
      and_on-Streaming (turn w t e) _ (turn-Streaming t e v) (serve-Streaming ts)

module _ {S : Type 0} (w : Services S) (ts : List Turn) (scheduler : Scheduler KvCacheManager)
    (eos_ids : List ℕ) (next_id : ℕ) where
  -- Along every run of the engine's thread from a new engine over any scheduler, with any model,
  -- sampler and behaviour of the channels: no id is given to a caller twice and none from the
  -- counter on is given at all; the stream of an id that was given is either active or has ended
  -- exactly once, and no other stream is or has; no event stands behind the end of its stream; and
  -- the scheduler has the sequence of each active request in a queue.
  pub serve-new : Streaming no_slack (serve w ts (new scheduler eos_ids next_id))
  unfolding new
  serve-new = serve-Streaming w ts (new scheduler eos_ids next_id) (record {
    fresh = λ a h. refl;
    once = λ a. omega arith;
    accounts = λ a. refl;
    closed = tt;
    tracked = λ a. omega arith;
  })

  -- Along every run of the engine's thread from a new engine, with any model, sampler and
  -- behaviour of the channels: whenever the scheduler has no work, the stream of each id that was
  -- given to a caller has ended exactly once, by a terminal event or by a channel that took no
  -- more, and no other stream has.
  pub ended_when_idle :
      has_work (serve w ts (new scheduler eos_ids next_id)).scheduler ≡ false
      → (a : ℕ)
      → ends a (serve w ts (new scheduler eos_ids next_id)).sent
        ≡ accepted a (serve w ts (new scheduler eos_ids next_id)).replies
  ended_when_idle idle a = omega (
    arith,
    serve-new.accounts a,
    serve-new.tracked a,
    idle_known (serve w ts (new scheduler eos_ids next_id)).scheduler idle a,
  )
