-- ===== src/Core/Sequence.antt =====
-- crates/orion-core/src/sequence.rs: the sequence, the unit of work of the scheduler and the cache.
-- An `Instant` is a number; each method that reads the clock takes the time as an argument.
pub mod Life
use Prim.Native.String.{String}
pub use orion_serve_rs.Core.Sampling.{SamplingParams, default_params}
use orion_serve_rs.Prelude.{
  ℕ, ◌+◌, ◌-◌, ◌/◌, ◌%◌, min, Bool, true, false, Option, none, some, List, [], ◌∷◌, ◌++◌,
  if◌then◌else◌, ltb, leb, length,
}

pub data SequenceState : Type 0 where
  waiting prefilling decoding finished : SequenceState

unfoldable pub can_transition_to : SequenceState → SequenceState → Bool
can_transition_to waiting prefilling = true
can_transition_to waiting finished = true
can_transition_to waiting _ = false
can_transition_to prefilling _ = true
can_transition_to decoding decoding = true
can_transition_to decoding waiting = true
can_transition_to decoding finished = true
can_transition_to decoding _ = false
can_transition_to finished _ = false

unfoldable pub is_active : SequenceState → Bool
is_active prefilling = true
is_active decoding = true
is_active _ = false

abbrev pub state_eq : SequenceState → SequenceState → Bool
state_eq waiting waiting = true
state_eq prefilling prefilling = true
state_eq decoding decoding = true
state_eq finished finished = true
state_eq _ _ = false

pub data FinishReason : Type 0 where
  stop : FinishReason
  stop_sequence : String → FinishReason
  length_reached : FinishReason
  cancelled : FinishReason
  timeout : FinishReason
  error : String → FinishReason

unfoldable pub as_api_str : FinishReason → String
as_api_str stop = "stop"
as_api_str (stop_sequence s) = "stop"
as_api_str length_reached = "length"
as_api_str cancelled = "cancelled"
as_api_str timeout = "timeout"
as_api_str (error e) = "error"

pub record SequenceTimings : Type 0 where
  pub arrived_at : ℕ
  pub first_scheduled_at : Option ℕ
  pub first_token_at : Option ℕ
  pub finished_at : Option ℕ

abbrev pub new_timings : ℕ → SequenceTimings
new_timings now = record {
  arrived_at = now;
  first_scheduled_at = none;
  first_token_at = none;
  finished_at = none;
}

-- `Instant - Instant` saturates at zero.
abbrev since : Option ℕ → ℕ → Option ℕ
since none start = none
since (some t) start = some (t - start)

unfoldable pub time_to_first_token : SequenceTimings → Option ℕ
time_to_first_token t = since t.first_token_at t.arrived_at

unfoldable pub queue_time : SequenceTimings → Option ℕ
queue_time t = since t.first_scheduled_at t.arrived_at

-- `output_tokens as u32 - 1`
abbrev u32_pred : ℕ → ℕ
u32_pred n = (n % 4294967296 + 4294967295) % 4294967296

per_token : Option ℕ → Option ℕ → ℕ → Option ℕ
per_token none last n = none
per_token (some first) none n = none
per_token (some first) (some last) n = if ltb n 2 then none else some ((last - first) / u32_pred n)

unfoldable pub time_per_output_token : SequenceTimings → ℕ → Option ℕ
unfolding per_token
time_per_output_token t output_tokens = per_token t.first_token_at t.finished_at output_tokens

pub record Sequence : Type 0 where
  pub id : ℕ
  pub prompt : List ℕ
  pub output : List ℕ
  pub computed_prefix_len : ℕ
  pub state : SequenceState
  pub finish_reason : Option FinishReason
  pub params : SamplingParams
  pub timings : SequenceTimings

-- `id` is what `SequenceId::next()` gives.
unfoldable pub new : ℕ → ℕ → List ℕ → SamplingParams → Sequence
new id now prompt params = record {
  id = id;
  prompt = prompt;
  output = [];
  computed_prefix_len = 0;
  state = waiting;
  finish_reason = none;
  params = params;
  timings = new_timings now;
}

abbrev pub prompt_len : Sequence → ℕ
prompt_len s = length s.prompt

abbrev pub output_len : Sequence → ℕ
output_len s = length s.output

abbrev pub total_len : Sequence → ℕ
total_len s = length s.prompt + length s.output

abbrev pub remaining_prefill : Sequence → ℕ
remaining_prefill s = length s.prompt - s.computed_prefix_len

abbrev pub is_prefill_complete : Sequence → Bool
is_prefill_complete s = leb (length s.prompt) s.computed_prefix_len

abbrev pub is_finished : Sequence → Bool
is_finished s = state_eq s.state finished

abbrev or_now : Option ℕ → ℕ → Option ℕ
or_now none now = some now
or_now (some t) now = some t

abbrev enter : Sequence → ℕ → SequenceState → Sequence
enter s now next =
    if state_eq next prefilling
    then record s {
      state = next;
      timings = record (s.timings) { first_scheduled_at = or_now s.timings.first_scheduled_at now };
    }
    else record s { state = next }

-- The flag says whether the transition is legal; an illegal one changes nothing.
unfoldable pub transition_to : Sequence → ℕ → SequenceState → Bool × Sequence
transition_to s now next =
    if can_transition_to s.state next then (true, enter s now next) else (false, s)

abbrev pub advance_prefill : Sequence → ℕ → Sequence
advance_prefill s n = record s {
  computed_prefix_len = min (s.computed_prefix_len + n) (length s.prompt);
}

abbrev stamp_first : List ℕ → ℕ → SequenceTimings → SequenceTimings
stamp_first [] now t = record t { first_token_at = some now }
stamp_first (x ∷ xs) now t = t

unfoldable pub push_token : Sequence → ℕ → ℕ → Sequence
push_token s now token = record s {
  output = s.output ++ token ∷ [];
  timings = stamp_first s.output now s.timings;
}

-- The first reason wins.
unfoldable pub finish : Sequence → ℕ → FinishReason → Sequence
finish s now reason = if is_finished s then s else record s {
  state = finished;
  finish_reason = some reason;
  timings = record (s.timings) { finished_at = some now };
}

unfoldable pub preempt : Sequence → Bool × Sequence
preempt s =
    if can_transition_to s.state waiting
    then (true, record s { state = waiting; computed_prefix_len = 0 })
    else (false, s)

abbrev pub all_tokens : Sequence → List ℕ
all_tokens s = s.prompt ++ s.output

abbrev pub reached_max_tokens : Sequence → Bool
reached_max_tokens s = leb s.params.max_tokens (length s.output)

abbrev pub may_stop_on_eos : Sequence → Bool
may_stop_on_eos s = leb s.params.min_tokens (length s.output)
