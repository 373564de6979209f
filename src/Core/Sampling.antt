-- ===== src/Core/Sampling.antt =====
-- crates/orion-core/src/sampling.rs: the sampling parameters of a request, and their check.
pub mod Accepts
use Prim.Native.String.{String}
use orion_serve_rs.Prelude.{
  ℕ, Bool, true, false, not, ◌&&◌, ◌||◌, Option, none, some, List, [], ◌∷◌, if◌then◌else◌, ◌==◌,
  ltb, length,
}
use orion_serve_rs.Core.Error.{Result, ok, err, EngineError, invalid_request}
use orion_serve_rs.Core.Float32.{one, is_finite, f32_lt, f32_le, f32_eq}

-- Fields of type `f32` hold bits.
pub record SamplingParams : Type 0 where
  pub temperature : ℕ
  pub top_p : ℕ
  pub top_k : ℕ
  pub repetition_penalty : ℕ
  pub max_tokens : ℕ
  pub min_tokens : ℕ
  pub seed : Option ℕ
  pub stop_token_ids : List ℕ
  pub stop_sequences : List String
  pub logprobs : Option ℕ
  pub echo : Bool

abbrev pub default_params : SamplingParams
default_params = record {
  temperature = one;
  top_p = one;
  top_k = 0;
  repetition_penalty = one;
  max_tokens = 16;
  min_tokens = 0;
  seed = none;
  stop_token_ids = [];
  stop_sequences = [];
  logprobs = none;
  echo = false;
}

abbrev pub max_logprobs : ℕ
max_logprobs = 20

abbrev pub max_stop_sequences : ℕ
max_stop_sequences = 16

abbrev pub is_empty_text : String → Bool
is_empty_text String.[] = true
is_empty_text (String.◌∷◌ c s) = false

abbrev pub any_empty : List String → Bool
any_empty [] = false
any_empty (s ∷ ss) = is_empty_text s || any_empty ss

abbrev pub exceeds : Option ℕ → ℕ → Bool
exceeds none limit = false
exceeds (some n) limit = ltb limit n

abbrev pub reject_if : Bool → String → Result (Unit {0}) → Result (Unit {0})
reject_if bad reason rest = if bad then err (invalid_request reason) else rest

unfoldable pub validate : SamplingParams → Result (Unit {0})
validate p =
    reject_if (not (is_finite p.temperature) || f32_lt p.temperature 0)
      "temperature must be a finite value >= 0.0"
      (reject_if (not (is_finite p.top_p) || f32_le p.top_p 0 || f32_lt one p.top_p)
        "top_p must be in (0.0, 1.0]"
        (reject_if (not (is_finite p.repetition_penalty) || f32_le p.repetition_penalty 0)
          "repetition_penalty must be a finite value > 0.0"
          (reject_if (p.max_tokens == 0) "max_tokens must be at least 1" (
            reject_if (ltb p.max_tokens p.min_tokens) "min_tokens must not exceed max_tokens" (
              reject_if (exceeds p.logprobs max_logprobs) "logprobs must be <= 20" (
                reject_if (ltb max_stop_sequences (length p.stop_sequences))
                  "at most 16 stop sequences are allowed"
                  (reject_if (any_empty p.stop_sequences) "stop sequences must not be empty"
                    (ok tt))))))))

pub data SamplingMode : Type 0 where
  greedy stochastic : SamplingMode

abbrev pub mode : SamplingParams → SamplingMode
mode p = if f32_eq p.temperature 0 then greedy else stochastic

abbrev pub is_greedy : SamplingMode → Bool
is_greedy greedy = true
is_greedy stochastic = false

abbrev pub is_seeded : Option ℕ → Bool
is_seeded none = false
is_seeded (some s) = true

abbrev pub is_deterministic : SamplingParams → Bool
is_deterministic p = is_greedy (mode p) || is_seeded p.seed
