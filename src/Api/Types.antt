-- ===== src/Api/Types.antt =====
-- crates/orion-api/src/types.rs and crates/orion-api/src/routes.rs: the fields of a request, the
-- parameters built of them, and what a client sees of an error.
use Prim.Native.String.{String}
use orion_serve_rs.Prelude.{ℕ, ◌+◌, false, Option, none, some, List, [], ◌∷◌, if◌then◌else◌}
use orion_serve_rs.Prelude.Defaults.{unwrap_or}
use orion_serve_rs.Core.Error.{
  EngineError, Result, ok, err, invalid_request, context_length_exceeded, queue_full,
  cache_exhausted, timeout, cancelled, tokenizer, backend, engine_shutdown, internal, is_retryable,
  is_client_error, code,
}
use orion_serve_rs.Core.Float32.{one, is_nan, f32_lt}
use orion_serve_rs.Core.Sampling.{SamplingParams, validate}
use orion_serve_rs.Core.Sequence.{FinishReason, as_api_str}

pub data StopField : Type 0 where
  single_stop : String → StopField
  multiple_stops : List String → StopField

unfoldable pub into_vec : StopField → List String
into_vec (single_stop s) = s ∷ []
into_vec (multiple_stops ss) = ss

pub data PromptField : Type 0 where
  single_prompt : String → PromptField
  multiple_prompts : List String → PromptField

unfoldable pub single : PromptField → Result String
single (single_prompt s) = ok s
single (multiple_prompts (s ∷ [])) = ok s
single (multiple_prompts _) = err (invalid_request "batched prompts are not supported")

-- The arguments of `build_params`; fields of type `f32` hold bits.
pub record ParamFields : Type 0 where
  pub temperature : Option ℕ
  pub top_p : Option ℕ
  pub top_k : Option ℕ
  pub max_tokens : Option ℕ
  pub min_tokens : Option ℕ
  pub repetition_penalty : Option ℕ
  pub presence_penalty : Option ℕ
  pub seed : Option ℕ
  pub stop : Option StopField

-- `f32::max`
abbrev pub f32_max : ℕ → ℕ → ℕ
f32_max a b = if is_nan a then b else (if f32_lt a b then b else a)

abbrev pub stops_or_none : Option StopField → List String
stops_or_none none = []
stops_or_none (some s) = into_vec s

module _ (add : ℕ → ℕ → ℕ) where
  abbrev pub or_presence : Option ℕ → Option ℕ → Option ℕ
  or_presence (some p) presence = some p
  or_presence none none = none
  or_presence none (some p) = some (add one (f32_max p 0))

  -- The parameters before their check; `add` is the addition of `f32`.
  unfoldable pub assemble : ParamFields → ℕ → SamplingParams
  unfolding into_vec
  assemble f default_max_tokens = record {
    temperature = unwrap_or f.temperature one;
    top_p = unwrap_or f.top_p one;
    top_k = unwrap_or f.top_k 0;
    repetition_penalty = unwrap_or (or_presence f.repetition_penalty f.presence_penalty) one;
    max_tokens = unwrap_or f.max_tokens default_max_tokens;
    min_tokens = unwrap_or f.min_tokens 0;
    seed = f.seed;
    stop_token_ids = [];
    stop_sequences = stops_or_none f.stop;
    logprobs = none;
    echo = false;
  }

  abbrev pub if_valid : SamplingParams → Result (Unit {0}) → Result SamplingParams
  if_valid p (ok _) = ok p
  if_valid p (err e) = err e

  unfoldable pub build_params : ParamFields → ℕ → Result SamplingParams
  unfolding assemble validate
  build_params f default_max_tokens =
      let p = assemble f default_max_tokens in if_valid p (validate p)

pub record Usage : Type 0 where
  pub prompt_tokens : ℕ
  pub completion_tokens : ℕ
  pub total_tokens : ℕ

abbrev pub new_usage : ℕ → ℕ → Usage
new_usage prompt completion = record {
  prompt_tokens = prompt;
  completion_tokens = completion;
  total_tokens = prompt + completion;
}

pub record ErrorDetail : Type 0 where
  pub message : String
  pub kind : String
  pub code : String
  pub param : Option String

abbrev pub message_of : String → EngineError → String
message_of display (internal reason) = "internal server error"
message_of display _ = display

-- `display` is the formatted error.
unfoldable pub from_engine : String → EngineError → ErrorDetail
unfolding is_client_error is_retryable code
from_engine display e = record {
  message = message_of display e;
  kind =
      if is_client_error e
      then "invalid_request_error"
      else (if is_retryable e then "server_overloaded" else "server_error");
  code = code e;
  param = none;
}

abbrev pub finish_reason_str : FinishReason → String
finish_reason_str = as_api_str

-- The status of `IntoResponse`.
unfoldable pub status_of : EngineError → ℕ
status_of (invalid_request reason) = 400
status_of (context_length_exceeded p m c) = 400
status_of (queue_full queued limit) = 429
status_of (cache_exhausted needed available) = 503
status_of (timeout elapsed state) = 504
status_of cancelled = 499
status_of engine_shutdown = 503
status_of (tokenizer reason) = 400
status_of (backend name stage reason) = 500
status_of (internal reason) = 500
