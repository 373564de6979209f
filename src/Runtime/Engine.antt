-- ===== src/Runtime/Engine.antt =====
-- crates/orion-runtime/src/engine.rs: the state of the engine and what its callers are sent.
pub mod Calls
pub mod Step
pub mod Serve
pub mod Streams
pub mod Streaming
pub mod Contract
pub mod Runs
use Prim.Native.String.{String}
use orion_serve_rs.Prelude.{
  ℕ, ◌+◌, Bool, true, false, not, Option, none, some, List, [], ◌∷◌, if◌then◌else◌, ◌==◌, length,
}
use orion_serve_rs.Prelude.Assoc
use orion_serve_rs.Core.Error.{EngineError, Result, ok, err, code}
use orion_serve_rs.Core.Batch.{ForwardBatch}
use orion_serve_rs.Core.Forward.{ForwardOutput}
use orion_serve_rs.Core.Sequence.{FinishReason, SamplingParams}
use orion_serve_rs.KvCache.Manager.{KvCacheManager, CacheStats, stats}
use orion_serve_rs.Scheduler.Output.{SchedulerStats}
use orion_serve_rs.Scheduler.State.{Scheduler}

pub data StreamEvent : Type 0 where
  token_event : ℕ → String → ℕ → StreamEvent
  done_event : FinishReason → ℕ → ℕ → StreamEvent
  error_event : String → String → StreamEvent

unfoldable pub is_terminal : StreamEvent → Bool
is_terminal (token_event token text index) = false
is_terminal (done_event reason prompt completion) = true
is_terminal (error_event name message) = true

-- The message is the formatted text of the error, which is an argument.
unfoldable pub from_error : EngineError → String → StreamEvent
from_error e message = error_event (code e) message

-- A sampler of type `S` for each request.
pub record ActiveRequest (S : Type 0) : Type 0 where
  pub sampler : S
  pub prompt_len : ℕ

-- A `try_send` on the channel of a request, and whether the channel took the event.
pub record Sent : Type 0 where
  pub to : ℕ
  pub event : StreamEvent
  pub delivered : Bool

pub record EngineStats : Type 0 where
  pub scheduler : SchedulerStats
  pub num_running : ℕ
  pub num_waiting : ℕ
  pub cache_total_blocks : ℕ
  pub cache_free_blocks : ℕ
  pub prefix_cache_hits : ℕ
  pub prefix_cache_misses : ℕ

-- `next_id` is the counter behind `SequenceId::next`. What the engine sends stands newest first:
-- the events, the answers to submissions and the snapshots.
pub record Engine (S : Type 0) : Type 0 where
  pub scheduler : Scheduler KvCacheManager
  pub active : List (ℕ × ActiveRequest S)
  pub eos_ids : List ℕ
  pub next_id : ℕ
  pub sent : List Sent
  pub replies : List (Result ℕ)
  pub reports : List EngineStats

-- The model, the sampler and the channels. A forward pass may depend on the time, and whether a
-- channel takes an event on everything sent before.
pub record Services (S : Type 0) : Type 0 where
  pub forward : ℕ → ForwardBatch → Result ForwardOutput
  pub for_params : SamplingParams → S
  pub sample : S → List ℕ → List ℕ → SamplingParams → Result ℕ × S
  pub delivers : List Sent → ℕ → StreamEvent → Bool

unfoldable pub new : {S : Type 0} → Scheduler KvCacheManager → List ℕ → ℕ → Engine S
new scheduler eos_ids next_id = record {
  scheduler = scheduler;
  active = [];
  eos_ids = eos_ids;
  next_id = next_id;
  sent = [];
  replies = [];
  reports = [];
}

unfoldable pub engine_stats : {S : Type 0} → Engine S → EngineStats
engine_stats e =
    let c = stats e.scheduler.cache in
    record {
      scheduler = e.scheduler.stats;
      num_running = length e.scheduler.running;
      num_waiting = length e.scheduler.waiting;
      cache_total_blocks = c.total_blocks;
      cache_free_blocks = c.free_blocks;
      prefix_cache_hits = c.prefix_cache_hits;
      prefix_cache_misses = c.prefix_cache_misses;
    }

abbrev pub is_some {ℓ} : {A : Type ℓ} → Option A → Bool
is_some none = false
is_some (some a) = true

-- Whether the request of an id is active, as a number.
abbrev pub streams : {S : Type 0} → Engine S → ℕ → ℕ
streams e a = if is_some (Assoc.lookup a e.active) then 1 else 0

-- An event ends a stream if it is terminal, or if the channel did not take it.
abbrev pub is_end : Sent → Bool
is_end x = if x.delivered then is_terminal x.event else true

-- How often the stream of an id was ended.
abbrev pub ends : ℕ → List Sent → ℕ
ends a [] = 0
ends a (x ∷ xs) = (if x.to == a then (if is_end x then 1 else 0) else 0) + ends a xs

abbrev pub answers : ℕ → Result ℕ → Bool
answers a (ok id) = id == a
answers a (err e) = false

-- How often an id was given to a caller.
abbrev pub accepted : ℕ → List (Result ℕ) → ℕ
accepted a [] = 0
accepted a (r ∷ rs) = (if answers a r then 1 else 0) + accepted a rs
