-- ===== src/Runtime/Sampling/Bounds.antt =====
-- A sampled token is an index of the row (crates/orion-runtime/src/sampling.rs).
use native.Mathlib.Nat.{mod-le}
use orion_serve_rs.Prelude.{
  ℕ, zero, suc, ◌+◌, ◌-◌, ◌%◌, ◌≤◌, ◌<◌, ◌≡◌, refl, sym, ap, ◌∙◌, inl, inr, Bool, true, false, not,
  ◌||◌, Option, none, some, List, [], ◌∷◌, map, arith, if◌then◌else◌, ◌==◌, leb, length, get_elem?,
  length-set, Bool-cases, Option-cases, if_elim,
}
use orion_serve_rs.Prelude.Defaults.{unwrap_or}
use orion_serve_rs.Core.Error.{Result, ok, err}
use orion_serve_rs.Core.Float32.{one, neg_infinity, is_finite, f32_lt, f32_le, f32_eq}
use orion_serve_rs.Core.Sampling.{SamplingParams, mode, is_greedy}
use orion_serve_rs.KvCache.Block.{u32_mod}
use orion_serve_rs.Runtime.Sampling.{
  Arithmetic, masked, enumerate, sort_by, candidates, past_cutoff, distinct, max_from, argmax,
  mask_from, mask_all, apply_top_k, last_positive, penalize_at, penalize, apply_repetition_penalty,
  apply_temperature, uniform, exponentials, softmax, apply_top_p, first_past, sample_from, or_empty,
  draw, sample,
}
use orion_serve_rs.Runtime.Sampling.Choice.{Greedy, argmax-Greedy}

lt_of_get : (ls : List ℕ) (k v : ℕ) → get_elem? ls k ≡ some v → k < length ls
lt_of_get [] k v e = absurd (ground (arith, e))
lt_of_get (l ∷ ls) zero v e = omega arith
lt_of_get (l ∷ ls) (suc k) v e = omega (arith, lt_of_get ls k v e)

length-map : (h : ℕ → ℕ) (ls : List ℕ) → length (map h ls) ≡ length ls
length-map h [] = refl
length-map h (l ∷ ls) = ap suc (length-map h ls)

-- Both of two lists have the length.
same_length :
    (n : ℕ) (b : Bool) (x y : List ℕ)
    → length x ≡ n
    → length y ≡ n
    → length (if b then x else y) ≡ n
same_length n true x y ex ey = ex
same_length n false x y ex ey = ey

length-mask_all : (cs : List (ℕ × ℕ)) (ls : List ℕ) → length (mask_all cs ls) ≡ length ls
length-mask_all [] ls = refl
length-mask_all ((i, pr) ∷ cs) ls = length-mask_all cs _ ∙ length-set ls i _

length-mask_from : (t : Option ℕ) (ls : List ℕ) → length (mask_from t ls) ≡ length ls
length-mask_from none ls = refl
length-mask_from (some t) ls = length-map _ ls

length-apply_top_k : (ls : List ℕ) (k : ℕ) → length (apply_top_k ls k) ≡ length ls
unfolding apply_top_k
length-apply_top_k ls k =
    same_length (length ls) (k == 0 || leb (length ls) k) ls _ refl (length-mask_from _ ls)

last_positive_bound :
    (i : ℕ) (ps : List ℕ) (j : ℕ) → last_positive i ps ≡ some j → j < i + length ps
unfolding last_positive
last_positive_bound i [] j e = absurd (ground (arith, e))
last_positive_bound i (p ∷ ps) j e = elim (Option-cases (last_positive (suc i) ps)) [
  | inl none_later ↦ ground (arith, e, none_later)
  | inr (k, later) ↦ ground (arith, e, later, last_positive_bound (suc i) ps k later)
]

unwrap_or_bound :
    (o : Option ℕ) (d n : ℕ) → ((j : ℕ) → o ≡ some j → j < n) → d < n → unwrap_or o d < n
unwrap_or_bound none d n h lt = lt
unwrap_or_bound (some j) d n h lt = h j refl

u32-le : (n : ℕ) → n % u32_mod ≤ n
u32-le n = mod-le n u32_mod

module _ {G : Type 0} (f : Arithmetic G) where
  length-penalize : (penalty : ℕ) (ts ls : List ℕ) → length (penalize f penalty ts ls) ≡ length ls
  length-penalize penalty [] ls = refl
  length-penalize penalty (t ∷ ts) ls = length-penalize penalty ts _ ∙ one_write (get_elem? ls t)
    where
      one_write : (o : Option ℕ) → length (penalize_at f penalty t o ls) ≡ length ls
      one_write none = refl
      one_write (some l) = length-set ls t _

  length-apply_repetition_penalty :
      (ls previous : List ℕ) (penalty : ℕ)
      → length (apply_repetition_penalty f ls previous penalty) ≡ length ls
  unfolding apply_repetition_penalty
  length-apply_repetition_penalty ls previous penalty =
      same_length (length ls) (f32_eq penalty one) ls _ refl
        (length-penalize penalty (distinct previous) ls)

  length-apply_temperature :
      (ls : List ℕ) (temperature : ℕ) → length (apply_temperature f ls temperature) ≡ length ls
  unfolding apply_temperature
  length-apply_temperature ls temperature =
      same_length (length ls) (f32_eq temperature one) ls _ refl
        (length-map (λ l. f.mul l (f.div one temperature)) ls)

  length-apply_top_p : (ls : List ℕ) (p : ℕ) → length (apply_top_p f ls p) ≡ length ls
  unfolding apply_top_p
  length-apply_top_p ls p =
      let cut =
        past_cutoff f p 0 (sort_by (λ c. c.1) (candidates f (enumerate 0 (softmax f ls)) ls)) in
      same_length (length ls) (f32_le one p) ls (mask_all cut ls) refl (length-mask_all cut ls)

  length-exponentials :
      (max sum : ℕ) (ls : List ℕ) → length (exponentials f max sum ls).0 ≡ length ls
  length-exponentials max sum [] = refl
  length-exponentials max sum (l ∷ ls) = ground (
    arith,
    length-exponentials max sum ls,
    length-exponentials max (f.add sum (f.exp (f.sub l max))) ls,
  )

  length-softmax : (ls : List ℕ) → length (softmax f ls) ≡ length ls
  unfolding softmax
  length-softmax ls =
      let max = max_from neg_infinity ls in
      let (out, sum) = exponentials f max 0 ls in
      let even = λ (l : ℕ). f.div one (f.of_usize (length ls)) in
      same_length (length ls) (not (is_finite max) || f32_le max masked) (uniform f ls)
        (if f32_lt 0 sum then map (λ v. f.div v sum) out else uniform f ls) (length-map even ls)
        (same_length (length ls) (f32_lt 0 sum) (map (λ v. f.div v sum) out) (uniform f ls)
          (length-map (λ v. f.div v sum) out ∙ length-exponentials max 0 ls) (length-map even ls))

  first_past_bound :
      (i r cumulative : ℕ) (ps : List ℕ) (j : ℕ)
      → first_past f i r cumulative ps ≡ some j
      → j < i + length ps
  first_past_bound i r cumulative [] j e = absurd (ground (arith, e))
  first_past_bound i r cumulative (p ∷ ps) j e = elim (Bool-cases (f32_lt r (f.add cumulative p))) [
    | inl here ↦ ground (arith, e, here)
    | inr later ↦
        let rest : first_past f (suc i) r (f.add cumulative p) ps ≡ some j =
          ground (arith, e, later) in
        omega (arith, first_past_bound (suc i) r (f.add cumulative p) ps j rest)
  ]

  sample_from_bound :
      (probs : List ℕ) (g : G) → 0 < length probs → (sample_from f probs g).0 < length probs
  unfolding sample_from
  sample_from_bound probs g some_entry =
      unwrap_or_bound (first_past f 0 (f.random g).0 0 probs) _ (length probs)
        (λ j e. omega (arith, first_past_bound 0 (f.random g).0 0 probs j e))
        (unwrap_or_bound (last_positive 0 probs) (length probs - 1) (length probs)
          (λ j e. omega (arith, last_positive_bound 0 probs j e)) (omega (arith, some_entry)))

  -- A token is below the bound, where there is one.
  abbrev pub IsBelow : ℕ → Result ℕ → Type 0
  IsBelow n (ok t) = t < n
  IsBelow n (err x) = Unit

  or_empty-IsBelow : (ls : List ℕ) (o : Option ℕ) → Greedy ls o → IsBelow (length ls) (or_empty f o)
  or_empty-IsBelow ls none h = tt
  or_empty-IsBelow ls (some k) (v, first) = omega (arith, u32-le k, lt_of_get ls k v first.0)

  draw-IsBelow :
      (ls : List ℕ) (p : SamplingParams) (g : G)
      → 0 < length ls
      → IsBelow (length ls) (draw f ls p g).0
  unfolding draw
  draw-IsBelow ls p g some_entry =
      let warm = apply_temperature f ls p.temperature in
      let kept = apply_top_p f (apply_top_k warm p.top_k) p.top_p in
      let all : length (softmax f kept) ≡ length ls =
        length-softmax kept
        ∙ length-apply_top_p (apply_top_k warm p.top_k) p.top_p
        ∙ length-apply_top_k warm p.top_k
        ∙ length-apply_temperature ls p.temperature in
      omega (
        arith,
        u32-le (sample_from f (softmax f kept) g).0,
        sample_from_bound (softmax f kept) g (omega (arith, all, some_entry)),
        all,
      )

  -- Whatever the arithmetic and the random numbers give, a token that `sample` returns is an index
  -- of the row of logits.
  pub sample-IsBelow :
      (g : G) (logits previous : List ℕ) (p : SamplingParams)
      → IsBelow (length logits) (sample f g logits previous p).0
  unfolding sample
  sample-IsBelow g [] previous p = tt
  sample-IsBelow g (l ∷ ls) previous p =
      let logits = apply_repetition_penalty f (l ∷ ls) previous p.repetition_penalty in
      let all = length-apply_repetition_penalty (l ∷ ls) previous p.repetition_penalty in
      rw (sym all) (
        if_elim (λ (r : Result ℕ × G). IsBelow (length logits) r.0) (is_greedy (mode p))
          (λ _. or_empty-IsBelow logits (argmax logits) (argmax-Greedy logits))
          (λ _. draw-IsBelow logits p g (omega (arith, all))))
