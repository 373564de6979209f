-- ===== src/Api/Params.antt =====
-- Which requests get parameters, and which parameters these are (crates/orion-api/src/types.rs).
use Prim.Native.String.{String}
use orion_serve_rs.Prelude.{
  ℕ, ◌≡◌, ◌↔◌, refl, sym, ap, subst, arith, true, false, if_elim, Option, none, some, List, [], ◌∷◌,
}
use orion_serve_rs.Prelude.Defaults.{unwrap_or, OrElse, OrElse-of, unwrap_or-OrElse}
use orion_serve_rs.Core.Error.{Result, ok, err}
use orion_serve_rs.Core.Float32.{one, is_nan, f32_lt}
use orion_serve_rs.Core.Sampling.{SamplingParams, validate}
use orion_serve_rs.Core.Sampling.Accepts.{IsAcceptable, validate_iff}
use orion_serve_rs.Api.Types.{
  StopField, single_stop, multiple_stops, ParamFields, into_vec, f32_max, or_presence,
  stops_or_none, if_valid, assemble, build_params,
}

-- The stop sequences of a request: none, a text for itself, or a list.
pub data StopsOf : Option StopField → List String → Type 0 where
  no_stops : StopsOf none []
  one_stop : (s : String) → StopsOf (some (single_stop s)) (s ∷ [])
  stops : (ss : List String) → StopsOf (some (multiple_stops ss)) ss

module _ (add : ℕ → ℕ → ℕ) where
  -- The penalty for repetition: as it is stated; else one more than the presence penalty, of which
  -- what is below zero, or no number, counts as zero; else one.
  pub data PenaltyOf : Option ℕ → Option ℕ → ℕ → Type 0 where
    explicit : {presence : Option ℕ} (penalty : ℕ) → PenaltyOf (some penalty) presence penalty
    raised :
        (presence : ℕ)
        → is_nan presence ≡ false
        → f32_lt presence 0 ≡ false
        → PenaltyOf none (some presence) (add one presence)
    below_zero :
        (presence : ℕ) → f32_lt presence 0 ≡ true → PenaltyOf none (some presence) (add one 0)
    no_number : (presence : ℕ) → is_nan presence ≡ true → PenaltyOf none (some presence) (add one 0)
    neutral : PenaltyOf none none one

  -- What a request asks for, field by field, with the defaults.
  pub record Asked (f : ParamFields) (default_max_tokens : ℕ) (p : SamplingParams) : Type 0 where
    pub temperature : OrElse one f.temperature p.temperature
    pub top_p : OrElse one f.top_p p.top_p
    pub top_k : OrElse 0 f.top_k p.top_k
    pub repetition_penalty : PenaltyOf f.repetition_penalty f.presence_penalty p.repetition_penalty
    pub max_tokens : OrElse default_max_tokens f.max_tokens p.max_tokens
    pub min_tokens : OrElse 0 f.min_tokens p.min_tokens
    pub seed : p.seed ≡ f.seed
    pub stop_token_ids : p.stop_token_ids ≡ []
    pub stop_sequences : StopsOf f.stop p.stop_sequences
    pub logprobs : p.logprobs ≡ none
    pub echo : p.echo ≡ false

  presence_penalty : (v : ℕ) → PenaltyOf none (some v) (add one (f32_max v 0))
  presence_penalty v =
      if_elim (λ x. PenaltyOf none (some v) (add one x)) (is_nan v) (λ strange. no_number v strange)
        (λ number.
          if_elim (λ x. PenaltyOf none (some v) (add one x)) (f32_lt v 0)
            (λ below. below_zero v below) (λ above. raised v number above))

  PenaltyOf-or_presence : (r v : Option ℕ) → PenaltyOf r v (unwrap_or (or_presence add r v) one)
  PenaltyOf-or_presence (some r) v = explicit r
  PenaltyOf-or_presence none none = neutral
  PenaltyOf-or_presence none (some v) = presence_penalty v

  or_presence-PenaltyOf :
      {r v : Option ℕ} {a : ℕ} → PenaltyOf r v a → unwrap_or (or_presence add r v) one ≡ a
  or_presence-PenaltyOf (explicit r) = refl
  or_presence-PenaltyOf (raised v number above) = rw (above, number) refl
  or_presence-PenaltyOf (below_zero v below) = ground arith
  or_presence-PenaltyOf (no_number v strange) = rw strange refl
  or_presence-PenaltyOf neutral = refl

  stops_of-StopsOf : (o : Option StopField) → StopsOf o (stops_or_none o)
  unfolding into_vec
  stops_of-StopsOf none = no_stops
  stops_of-StopsOf (some (single_stop s)) = one_stop s
  stops_of-StopsOf (some (multiple_stops ss)) = stops ss

  StopsOf-stops : {o : Option StopField} {ss : List String} → StopsOf o ss → stops_or_none o ≡ ss
  unfolding into_vec
  StopsOf-stops no_stops = refl
  StopsOf-stops (one_stop s) = refl
  StopsOf-stops (stops ss) = refl

  assemble-Asked : (f : ParamFields) (d : ℕ) → Asked f d (assemble add f d)
  unfolding assemble
  assemble-Asked f d = record {
    temperature = OrElse-of one f.temperature;
    top_p = OrElse-of one f.top_p;
    top_k = OrElse-of 0 f.top_k;
    repetition_penalty = PenaltyOf-or_presence f.repetition_penalty f.presence_penalty;
    max_tokens = OrElse-of d f.max_tokens;
    min_tokens = OrElse-of 0 f.min_tokens;
    seed = refl;
    stop_token_ids = refl;
    stop_sequences = stops_of-StopsOf f.stop;
    logprobs = refl;
    echo = refl;
  }

  Asked-assemble :
      (f : ParamFields) (d : ℕ) (p : SamplingParams) → Asked f d p → assemble add f d ≡ p
  unfolding assemble
  Asked-assemble f d p a =
      rw
        (
          unwrap_or-OrElse a.temperature,
          unwrap_or-OrElse a.top_p,
          unwrap_or-OrElse a.top_k,
          or_presence-PenaltyOf a.repetition_penalty,
          unwrap_or-OrElse a.max_tokens,
          unwrap_or-OrElse a.min_tokens,
          sym a.seed,
          sym a.stop_token_ids,
          StopsOf-stops a.stop_sequences,
          sym a.logprobs,
          sym a.echo,
        )
        refl

  if_valid_iff :
      (p q : SamplingParams) (r : Result (Unit {0}))
      → (if_valid add p r ≡ ok q) ↔ ((p ≡ q) × (r ≡ ok tt))
  if_valid_iff p q (ok o) = (λ e. (ground (arith, e), refl), λ h. ap ok h.0)
  if_valid_iff p q (err x) = (λ e. absurd (ground (arith, e)), λ h. absurd (ground (arith, h.1)))

  -- Whatever the addition of floats gives, `build_params` returns parameters exactly if each of
  -- them is what the request states or, where it states nothing, the default (a temperature and a
  -- `top_p` of one, a `top_k` and least number of tokens of zero, the server's greatest number of
  -- tokens, no seed and no stop sequences), the repetition penalty is the one stated, else one
  -- more than the presence penalty, of which what is negative or no number counts as zero, else
  -- one, the rest is empty, and they are acceptable to the engine.
  pub build_params_iff :
      (f : ParamFields) (default_max_tokens : ℕ) (p : SamplingParams)
      → (build_params add f default_max_tokens ≡ ok p)
        ↔ (Asked f default_max_tokens p × IsAcceptable p)
  unfolding build_params
  build_params_iff f default_max_tokens p =
      let q = assemble add f default_max_tokens in
      let iff = if_valid_iff q p (validate q) in
      (
        λ e.
            let (same, valid) = iff.0 e in
            (
              subst (Asked f default_max_tokens) same (assemble-Asked f default_max_tokens),
              subst IsAcceptable same ((validate_iff q).0 valid),
            ),
        λ (asked, acceptable).
            let same = Asked-assemble f default_max_tokens p asked in
            iff.1 (same, (validate_iff q).1 (subst IsAcceptable (sym same) acceptable)),
      )
