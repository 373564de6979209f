-- ===== src/Runtime/Sampling/Failure.antt =====
-- When sampling fails (crates/orion-runtime/src/sampling.rs).
use orion_serve_rs.Prelude.{
  ℕ, ◌≡◌, ◌↔◌, ◌⊎◌, refl, sym, inl, inr, true, Option, none, some, List, [], ◌∷◌, arith, Bool-cases,
  subst,
}
use orion_serve_rs.Core.Error.{EngineError, Result, err}
use orion_serve_rs.Core.Float32.{neg_infinity}
use orion_serve_rs.Core.Sampling.{SamplingParams, mode, is_greedy}
use orion_serve_rs.Runtime.Sampling.{
  Arithmetic, argmax, apply_repetition_penalty, or_empty, draw, sample,
}
use orion_serve_rs.Runtime.Sampling.Choice.{NoneAbove, Greedy, argmax-Greedy}

module _ {G : Type 0} (f : Arithmetic G) where
  abbrev pub IsFailure : Result ℕ → Type 0
  IsFailure r = (x : EngineError) × (r ≡ err x)

  draw_never :
      (ls : List ℕ) (p : SamplingParams) (g : G) {A : Type 0} → IsFailure (draw f ls p g).0 → A
  unfolding draw
  draw_never ls p g (x, e) = absurd (ground (arith, e))

  or_empty_iff :
      (ls : List ℕ) (o : Option ℕ)
      → Greedy ls o
      → IsFailure (or_empty f o) ↔ NoneAbove neg_infinity ls
  or_empty_iff ls none h = (λ e. h, λ n. (_, refl))
  or_empty_iff ls (some k) (v, (there, above, rest, first)) =
      (λ (x, e). absurd (ground (arith, e)), λ n. absurd (ground (arith, n k v there, above)))

  -- What a failure is due to.
  abbrev pub IsUnsampleable : List ℕ → List ℕ → SamplingParams → Type 0
  IsUnsampleable logits previous p =
      (logits ≡ [])
      ⊎ ((is_greedy (mode p) ≡ true)
          × NoneAbove neg_infinity
              (apply_repetition_penalty f logits previous p.repetition_penalty))

  -- Whatever the arithmetic and the random numbers give, `sample` fails exactly on an empty row,
  -- and in greedy mode on a row in which, after the repetition penalty, no entry is above negative
  -- infinity.
  pub sample_fails_iff :
      (g : G) (logits previous : List ℕ) (p : SamplingParams)
      → IsFailure (sample f g logits previous p).0 ↔ IsUnsampleable logits previous p
  unfolding sample
  sample_fails_iff g [] previous p = (λ e. inl refl, λ h. (_, refl))
  sample_fails_iff g (l ∷ ls) previous p =
      let logits = apply_repetition_penalty f (l ∷ ls) previous p.repetition_penalty in
      elim (Bool-cases (is_greedy (mode p))) [
        | inl greedy ↦
            let same : (sample f g (l ∷ ls) previous p).0 ≡ or_empty f (argmax logits) =
              ground (arith, greedy) in
            let iff = or_empty_iff logits (argmax logits) (argmax-Greedy logits) in
            (
              λ e. inr (greedy, iff.0 (subst IsFailure same e)),
              λ h. elim h [
                | inl empty ↦ absurd (ground (arith, empty))
                | inr (g', n) ↦ subst IsFailure (sym same) (iff.1 n)
              ],
            )
        | inr stochastic ↦
            let same : (sample f g (l ∷ ls) previous p).0 ≡ (draw f logits p g).0 =
              ground (arith, stochastic) in
            (
              λ e. draw_never logits p g (subst IsFailure same e),
              λ h. elim h [
                | inl empty ↦ absurd (ground (arith, empty))
                | inr (greedy, n) ↦ absurd (ground (arith, greedy, stochastic))
              ],
            )
      ]
