-- ===== src/Core/Sampling/Accepts.antt =====
-- The sampling parameters that pass the check (crates/orion-core/src/sampling.rs).
use Prim.Native.String.{String}
use orion_serve_rs.Prelude.{
  ℕ, ◌≤◌, ◌<◌, ◌≡◌, ◌↔◌, refl, Bool, true, false, Option, none, some, List, [], ◌∷◌, arith, length,
  All,
}
use orion_serve_rs.Core.Error.{Result, ok}
use orion_serve_rs.Core.Float32.{one, is_finite, f32_lt, f32_le}
use orion_serve_rs.Core.Sampling.{
  SamplingParams, max_logprobs, is_empty_text, any_empty, exceeds, reject_if, validate,
}

-- `n` is at most the limit, where it is given.
abbrev pub AtMost : ℕ → Option ℕ → Type 0
AtMost limit none = Unit
AtMost limit (some n) = n ≤ limit

-- Finite numbers in their ranges, at least one token, and a bounded number of stop sequences none of
-- which is empty.
pub record IsAcceptable (p : SamplingParams) : Type 0 where
  pub temperature_finite : is_finite p.temperature ≡ true
  pub temperature_low : f32_lt p.temperature 0 ≡ false
  pub top_p_finite : is_finite p.top_p ≡ true
  pub top_p_low : f32_le p.top_p 0 ≡ false
  pub top_p_high : f32_lt one p.top_p ≡ false
  pub penalty_finite : is_finite p.repetition_penalty ≡ true
  pub penalty_low : f32_le p.repetition_penalty 0 ≡ false
  pub some_tokens : 0 < p.max_tokens
  pub ordered : p.min_tokens ≤ p.max_tokens
  pub few_logprobs : AtMost 20 p.logprobs
  pub few_stops : length p.stop_sequences ≤ 16
  pub no_empty_stop : All (λ s. is_empty_text s ≡ false) p.stop_sequences

reject_if_iff :
    (bad : Bool) (reason : String) (rest : Result (Unit {0}))
    → (reject_if bad reason rest ≡ ok tt) ↔ ((bad ≡ false) × (rest ≡ ok tt))
reject_if_iff true reason rest =
    (λ e. absurd (ground (arith, e)), λ h. absurd (ground (arith, h.0)))
reject_if_iff false reason rest = (λ e. (refl, e), λ h. h.1)

exceeds_iff : (o : Option ℕ) (limit : ℕ) → (exceeds o limit ≡ false) ↔ AtMost limit o
exceeds_iff none limit = (λ e. tt, λ h. refl)
exceeds_iff (some n) limit = (λ e. ground (arith, e), λ h. ground (arith, h))

any_empty_iff : (ss : List String) → (any_empty ss ≡ false) ↔ All (λ s. is_empty_text s ≡ false) ss
any_empty_iff [] = (λ e. tt, λ h. refl)
any_empty_iff (s ∷ ss) = (
  λ e.
      let rest : any_empty ss ≡ false = ground (arith, e) in
      (ground (arith, e), (any_empty_iff ss).0 rest),
  λ h. ground (arith, h.0, (any_empty_iff ss).1 h.1),
)

-- `validate` accepts exactly the parameters whose floats are finite and in their ranges, that ask
-- for at least one token and at most `max_tokens` as the least number, with at most 20 logprobs
-- and at most 16 stop sequences, none of them empty.
pub validate_iff : (p : SamplingParams) → (validate p ≡ ok tt) ↔ IsAcceptable p
unfolding validate
validate_iff p = (
  λ e. record {
    temperature_finite = ground (arith, e);
    temperature_low = ground (arith, e);
    top_p_finite = ground (arith, e);
    top_p_low = ground (arith, e);
    top_p_high = ground (arith, e);
    penalty_finite = ground (arith, e);
    penalty_low = ground (arith, e);
    some_tokens = ground (arith, e);
    ordered = ground (arith, e);
    few_logprobs = (exceeds_iff p.logprobs max_logprobs).0 (ground (arith, e));
    few_stops = ground (arith, e);
    no_empty_stop = (any_empty_iff p.stop_sequences).0 (ground (arith, e));
  },
  λ h. ground (
    arith,
    h.temperature_finite,
    h.temperature_low,
    h.top_p_finite,
    h.top_p_low,
    h.top_p_high,
    h.penalty_finite,
    h.penalty_low,
    h.some_tokens,
    h.ordered,
    (exceeds_iff p.logprobs max_logprobs).1 h.few_logprobs,
    h.few_stops,
    (any_empty_iff p.stop_sequences).1 h.no_empty_stop,
  ),
)
