-- ===== src/Api/Tests.antt =====
-- A request (crates/orion-api/src/types.rs) with a presence penalty and one stop sequence.
use orion_serve_rs.Prelude.{ℕ, ◌≡◌, ◌↔◌, refl, false, none, some, [], ◌∷◌}
use orion_serve_rs.Core.Error.{ok, tokenizer}
use orion_serve_rs.Core.Float32.{one}
use orion_serve_rs.Core.Sampling.{SamplingParams}
use orion_serve_rs.Core.Sampling.Accepts.{IsAcceptable}
use orion_serve_rs.Api.Types.{ParamFields, single_stop, build_params, from_engine, status_of}
use orion_serve_rs.Api.Params.{Asked, build_params_iff}

abbrev fields : ParamFields
fields = record {
  temperature = some 0;
  top_p = none;
  top_k = some 40;
  max_tokens = none;
  min_tokens = none;
  repetition_penalty = none;
  presence_penalty = some 1056964608;
  seed = none;
  stop = some (single_stop "END");
}

-- Some addition of `f32`; 1.0 + 0.5 is 1.5 with it.
abbrev add : ℕ → ℕ → ℕ
add a b = 1069547520

-- A presence penalty of one half raises the repetition penalty to 1.5.
abbrev asked : SamplingParams
asked = record {
  temperature = 0;
  top_p = one;
  top_k = 40;
  repetition_penalty = 1069547520;
  max_tokens = 128;
  min_tokens = 0;
  seed = none;
  stop_token_ids = [];
  stop_sequences = "END" ∷ [];
  logprobs = none;
  echo = false;
}

build_params_iff_example :
    (build_params add fields 128 ≡ ok asked) ↔ (Asked add fields 128 asked × IsAcceptable asked)
build_params_iff_example = build_params_iff add fields 128 asked

-- A tokenizer error is a bad request by its status and a fault of the server by its body.
run_tokenizer_error :
    (status_of (tokenizer "bad") ≡ 400)
    × ((from_engine "bad" (tokenizer "bad")).kind ≡ "server_error")
unfolding status_of from_engine
run_tokenizer_error = (refl, refl)
