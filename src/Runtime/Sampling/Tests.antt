-- ===== src/Runtime/Sampling/Tests.antt =====
-- The sampler (crates/orion-runtime/src/sampling.rs) on a row of three logits: 1.0, 5.0 and 5.0.
use orion_serve_rs.Prelude.{ℕ, ◌+◌, ◌≡◌, ◌↔◌, refl, some, List, [], ◌∷◌}
use orion_serve_rs.Core.Error.{ok}
use orion_serve_rs.Core.Sampling.{SamplingParams, default_params}
use orion_serve_rs.Runtime.Sampling.{
  Arithmetic, argmax, argmax_from, sample, apply_repetition_penalty,
}
use orion_serve_rs.Runtime.Sampling.Choice.{Greedy, argmax-Greedy}
use orion_serve_rs.Runtime.Sampling.Failure.{IsFailure, IsUnsampleable, sample_fails_iff}
use orion_serve_rs.Runtime.Sampling.Bounds.{IsBelow, sample-IsBelow}

abbrev logits : List ℕ
logits = 1065353216 ∷ 1084227584 ∷ 1084227584 ∷ []

run_argmax : argmax logits ≡ some 1
unfolding argmax argmax_from
run_argmax = refl

argmax-Greedy_example : Greedy logits (argmax logits)
argmax-Greedy_example = argmax-Greedy logits

-- Some arithmetic; the bound does not depend on it.
abbrev arithmetic : Arithmetic ℕ
arithmetic = record {
  add = λ a b. a + b;
  sub = λ a b. a;
  mul = λ a b. a;
  div = λ a b. a;
  exp = λ a. a;
  of_usize = λ n. n;
  random = λ g. (1056964608, g + 1);
  seed_from_u64 = λ seed. seed;
  from_entropy = 0;
}

abbrev greedy_params : SamplingParams
greedy_params = record default_params { temperature = 0 }

run_greedy : (sample arithmetic 7 logits (2 ∷ []) greedy_params).0 ≡ ok 1
unfolding sample argmax argmax_from apply_repetition_penalty
run_greedy = refl

sample-IsBelow_example : IsBelow arithmetic 3 (sample arithmetic 7 logits (2 ∷ []) default_params).0
sample-IsBelow_example = sample-IsBelow arithmetic 7 logits (2 ∷ []) default_params

sample_fails_iff_example :
    IsFailure arithmetic (sample arithmetic 7 logits (2 ∷ []) greedy_params).0
    ↔ IsUnsampleable arithmetic logits (2 ∷ []) greedy_params
sample_fails_iff_example = sample_fails_iff arithmetic 7 logits (2 ∷ []) greedy_params
