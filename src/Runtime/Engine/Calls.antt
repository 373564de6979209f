-- ===== src/Runtime/Engine/Calls.antt =====
-- crates/orion-runtime/src/engine.rs: what the engine does for its callers, and the end of a request.
use orion_serve_rs.Prelude.{ℕ, suc, Bool, true, false, Option, none, some, List, [], ◌∷◌, length}
use orion_serve_rs.Prelude.Assoc
use orion_serve_rs.Core.Error.{Result, ok, err}
use orion_serve_rs.Core.Sampling.{validate}
use orion_serve_rs.Core.Sequence.{
  Sequence, SamplingParams, FinishReason, stop, cancelled, output_len, all_tokens,
}
use orion_serve_rs.Core.Sequence
use orion_serve_rs.KvCache.Manager.{KvCacheManager}
use orion_serve_rs.KvCache.Trait.{manager_like}
use orion_serve_rs.Scheduler.Queue
use orion_serve_rs.Scheduler.State.{Scheduler, add_request}
use orion_serve_rs.Scheduler.State
use orion_serve_rs.Scheduler.Lifecycle.{reap_finished}
use orion_serve_rs.Runtime.Engine.{Engine, ActiveRequest, Services, StreamEvent, done_event}

module _ {S : Type 0} (w : Services S) where
  -- `try_send`
  abbrev pub send : Engine S → ℕ → StreamEvent → Bool × Engine S
  send e id event =
      let taken = w.delivers e.sent id event in
      (taken, record e { sent = (record { to = id; event = event; delivered = taken }) ∷ e.sent })

  abbrev pub drop_request : Engine S → ℕ → Engine S
  drop_request e id = record e { active = Assoc.remove id e.active }

  -- The end of a request that is active: it is dropped, and its caller told.
  unfoldable pub close : Engine S → ℕ → FinishReason → ℕ → Option (ActiveRequest S) → Engine S
  close e id reason completion none = e
  close e id reason completion (some req) =
      (send (drop_request e id) id (done_event reason req.prompt_len completion)).1

  abbrev pub output_len_or_zero : Option Sequence → ℕ
  output_len_or_zero none = 0
  output_len_or_zero (some s) = output_len s

  unfoldable pub finish_request : Engine S → ℕ → FinishReason → Engine S
  unfolding close
  finish_request e id reason =
      close e id reason (output_len_or_zero (Queue.get e.scheduler.running id))
        (Assoc.lookup id e.active)

  unfoldable pub after_add :
      Engine S → SamplingParams → ℕ → Result ℕ × Scheduler KvCacheManager → Engine S
  after_add e params prompt_len (ok id, s) = record e {
    scheduler = s;
    active =
        Assoc.insert id (record { sampler = w.for_params params; prompt_len = prompt_len })
          e.active;
    replies = ok id ∷ e.replies;
  }
  after_add e params prompt_len (err x, s) = record e { scheduler = s; replies = err x ∷ e.replies }

  -- `Sequence::new` takes the next id.
  unfoldable pub submit_valid : ℕ → Engine S → List ℕ → SamplingParams → Engine S
  unfolding after_add add_request
  submit_valid now e prompt params =
      after_add (record e { next_id = suc e.next_id }) params (length prompt)
        (add_request e.scheduler (Sequence.new e.next_id now prompt params))

  unfoldable pub after_validate :
      ℕ → Engine S → List ℕ → SamplingParams → Result (Unit {0}) → Engine S
  unfolding submit_valid
  after_validate now e prompt params (err x) = record e { replies = err x ∷ e.replies }
  after_validate now e prompt params (ok _) = submit_valid now e prompt params

  unfoldable pub submit : ℕ → Engine S → List ℕ → SamplingParams → Engine S
  unfolding after_validate validate
  submit now e prompt params = after_validate now e prompt params (validate params)

  abbrev pub after_cancel : Engine S → ℕ → Bool × Scheduler KvCacheManager → Engine S
  after_cancel e id (false, s) = record e { scheduler = s }
  after_cancel e id (true, s) =
      close (record e { scheduler = s }) id cancelled 0 (Assoc.lookup id e.active)

  unfoldable pub cancel : Engine S → ℕ → Engine S
  unfolding close State.cancel
  cancel e id = after_cancel e id (State.cancel e.scheduler id)

  -- Without an event.
  unfoldable pub cancel_silently : Engine S → ℕ → Engine S
  unfolding State.cancel
  cancel_silently e id = drop_request (record e { scheduler = (State.cancel e.scheduler id).1 }) id

  abbrev pub reason_or_stop : Option FinishReason → FinishReason
  reason_or_stop none = stop
  reason_or_stop (some r) = r

  unfoldable pub reap_each : List Sequence → Engine S → Engine S
  unfolding close
  reap_each [] e = e
  reap_each (s ∷ ss) e =
      reap_each ss
        (close e s.id (reason_or_stop s.finish_reason) (output_len s) (Assoc.lookup s.id e.active))

  unfoldable pub reap : Engine S → Engine S
  unfolding reap_each reap_finished
  reap e =
      let (finished, s) = reap_finished e.scheduler in
      reap_each finished (record e { scheduler = s })
