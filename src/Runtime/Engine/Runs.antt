-- ===== src/Runtime/Engine/Runs.antt =====
-- A run of the engine (crates/orion-runtime/src/engine.rs): a request is served to its last token.
use orion_serve_rs.Prelude.{ℕ, ◌≡◌, refl, true, false, none, List, [], ◌∷◌}
use orion_serve_rs.Core.Error.{ok, err, invalid_request}
use orion_serve_rs.Core.Forward.{row}
use orion_serve_rs.Core.Sampling.{validate}
use orion_serve_rs.Core.Sequence.{
  SamplingParams, default_params, length_reached, transition_to, can_transition_to, push_token,
  finish,
}
use orion_serve_rs.Scheduler.Queue.{drain_where, take_finished}
use orion_serve_rs.Scheduler.Queue
use orion_serve_rs.Scheduler.Lifecycle.{stop_reason}
use orion_serve_rs.Scheduler.State.{has_work}
use orion_serve_rs.Scheduler.State
use orion_serve_rs.Scheduler.Tests.{config, m0, scheduler_runs}
use orion_serve_rs.Runtime.Batch.{build_batch}
use orion_serve_rs.Runtime.Engine.{
  Engine, Services, Sent, token_event, done_event, is_terminal, ends, accepted, new,
}
use orion_serve_rs.Runtime.Engine.Serve.{Turn, generate, stats_command, serve}
use orion_serve_rs.Runtime.Engine.Streams.{Streaming, no_slack}
use orion_serve_rs.Runtime.Engine.Contract.{serve-new, ended_when_idle}

-- Two logits for each sequence of the batch, a sampler that counts its calls, and open channels.
abbrev services : Services ℕ
services = record {
  forward = λ now batch.
      ok (record { logits = 0 ∷ 1 ∷ []; vocab_size = 2; sequence_ids = batch.sequence_ids });
  for_params = λ params. 7;
  sample = λ calls logits context params. (ok calls, calls);
  delivers = λ sent id event. true;
}

abbrev one_token : SamplingParams
one_token = record default_params { max_tokens = 1 }

abbrev no_tokens : SamplingParams
no_tokens = record default_params { max_tokens = 0 }

abbrev turns : List Turn
turns =
    (record {
      pending =
          generate (11 ∷ 12 ∷ []) one_token ∷ generate (11 ∷ []) no_tokens ∷ stats_command ∷ [];
      is_connected = true;
      next = none;
      clock = λ i. i;
    })
    ∷ []

abbrev served : Engine ℕ
served = serve services turns (new (State.new config m0) (99 ∷ []) 1)

abbrev last_event : Sent
last_event = record { to = 1; event = done_event length_reached 2 1; delivered = true }

abbrev first_event : Sent
first_event = record { to = 1; event = token_event 7 "" 0; delivered = true }

unfoldable engine_runs : Unit {0}
unfolding scheduler_runs serve new validate row build_batch drain_where Queue.get take_finished
    Queue.update transition_to can_transition_to push_token finish stop_reason is_terminal has_work
engine_runs = tt

served_sent : served.sent ≡ last_event ∷ first_event ∷ []
unfolding engine_runs
served_sent = refl

served_idle : has_work served.scheduler ≡ false
unfolding engine_runs
served_idle = refl

run_replies : served.replies ≡ err (invalid_request "max_tokens must be at least 1") ∷ ok 1 ∷ []
unfolding engine_runs
run_replies = refl

serve-new_example : Streaming no_slack served
serve-new_example = serve-new services turns (State.new config m0) (99 ∷ []) 1

ended_when_idle_example : ends 1 served.sent ≡ accepted 1 served.replies
ended_when_idle_example =
    ended_when_idle services turns (State.new config m0) (99 ∷ []) 1 served_idle 1
