-- ===== src/Core/Tests.antt =====
-- The core (crates/orion-core) at concrete values.
use orion_serve_rs.Prelude.{ℕ, ◌≡◌, ◌↔◌, ◌==◌, ltb, true, none, [], ◌∷◌, refl}
use orion_serve_rs.Core.Sequence.{
  Sequence, SequenceState, SamplingParams, default_params, length_reached,
}
use orion_serve_rs.Core.Sequence
use orion_serve_rs.Core.Error.{ok}
use orion_serve_rs.Core.Sampling
use orion_serve_rs.Core.Sampling.Accepts.{IsAcceptable, validate_iff}
use orion_serve_rs.Core.Sequence.Life.{
  Life, born, lived, moved, took, ended, IsSound, Extends, Life-IsSound, Life-Extends,
}
use orion_serve_rs.Core.Config.{
  Float32, CacheConfig, ServerConfig, EngineConfig, default_scheduler, validate_engine, doubles_to,
  is_blank,
}
use orion_serve_rs.Core.Config.Sound.{EngineSound, validate_engine-EngineSound}

-- Fractions in hundredths.
abbrev hundredths : Float32 ℕ
hundredths = record { is_finite = λ n. true; le_zero = λ n. n == 0; gt_one = λ n. ltb 100 n }

abbrev cache : CacheConfig ℕ
cache = record {
  block_size = 16;
  gpu_memory_utilization = 90;
  num_blocks = none;
  enable_prefix_caching = true;
  num_cpu_swap_blocks = 0;
}

abbrev server : ServerConfig
server = record {
  host = 49 ∷ 50 ∷ [];
  port = 8000;
  max_request_bytes = 4194304;
  max_concurrent_requests = 1024;
  shutdown_grace_secs = 30;
  enable_metrics = true;
}

abbrev engine : EngineConfig ℕ
engine = record { cache = cache; scheduler = default_scheduler; server = server }

validate_engine-EngineSound_example :
    (validate_engine hundredths engine ≡ none) ↔ EngineSound hundredths engine
validate_engine-EngineSound_example = validate_engine-EngineSound hundredths engine

default_is_accepted : validate_engine hundredths engine ≡ none
unfolding validate_engine doubles_to is_blank
default_is_accepted = refl

abbrev params : SamplingParams
params = record default_params { max_tokens = 1 }

abbrev s0 : Sequence
s0 = Sequence.new 1 0 (11 ∷ 12 ∷ []) params

abbrev s1 : Sequence
s1 = (Sequence.transition_to s0 3 SequenceState.prefilling).1

abbrev s2 : Sequence
s2 = Sequence.push_token s1 4 20

abbrev s3 : Sequence
s3 = Sequence.finish s2 5 length_reached

life : Life s0 s3
life =
    lived (lived (lived born (moved s0 3 SequenceState.prefilling)) (took s1 4 20))
      (ended s2 5 length_reached)

s0-IsSound : IsSound s0
s0-IsSound = Life-IsSound 1 0 (11 ∷ 12 ∷ []) params born

Life-IsSound_example : IsSound s3
Life-IsSound_example = Life-IsSound 1 0 (11 ∷ 12 ∷ []) params life

Life-Extends_example : Extends s0 s3
Life-Extends_example = Life-Extends life s0-IsSound

validate_iff_example : (Sampling.validate default_params ≡ ok tt) ↔ IsAcceptable default_params
validate_iff_example = validate_iff default_params
