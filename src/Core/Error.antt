-- ===== src/Core/Error.antt =====
-- crates/orion-core/src/error.rs: the errors raised while serving a request, and their classes.
use Prim.Native.String.{String}
use orion_serve_rs.Prelude.{ℕ, Bool, true, false, List}

-- The errors of loading a model. The error of the operating system is left out.
pub data ModelError : Type 0 where
  path_not_found : String → ModelError
  missing_file : String → ModelError
  io : String → ModelError
  malformed : String → String → ModelError
  unsupported_architecture : String → ModelError
  unsupported_dtype : String → ModelError
  shape_mismatch : String → List ℕ → List ℕ → ModelError
  tensor_not_found : String → ModelError

-- `Internal` and `InvalidRequest` carry the fixed part of the formatted message.
pub data EngineError : Type 0 where
  invalid_request : String → EngineError
  context_length_exceeded : ℕ → ℕ → ℕ → EngineError
  queue_full : ℕ → ℕ → EngineError
  cache_exhausted : ℕ → ℕ → EngineError
  timeout : ℕ → String → EngineError
  cancelled : EngineError
  tokenizer : String → EngineError
  backend : String → String → String → EngineError
  engine_shutdown : EngineError
  internal : String → EngineError

unfoldable pub is_retryable : EngineError → Bool
is_retryable (queue_full queued limit) = true
is_retryable (cache_exhausted needed available) = true
is_retryable _ = false

unfoldable pub is_client_error : EngineError → Bool
is_client_error (invalid_request reason) = true
is_client_error (context_length_exceeded p m c) = true
is_client_error cancelled = true
is_client_error _ = false

unfoldable pub code : EngineError → String
code (invalid_request reason) = "invalid_request"
code (context_length_exceeded p m c) = "context_length_exceeded"
code (queue_full queued limit) = "queue_full"
code (cache_exhausted needed available) = "cache_exhausted"
code (timeout elapsed state) = "timeout"
code cancelled = "cancelled"
code (tokenizer reason) = "tokenizer_error"
code (backend name stage reason) = "backend_error"
code engine_shutdown = "engine_shutdown"
code (internal reason) = "internal_error"

pub data Result {ℓ} (A : Type ℓ) : Type ℓ where
  ok : A → Result A
  err : EngineError → Result A
