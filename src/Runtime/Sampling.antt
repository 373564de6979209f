-- ===== src/Runtime/Sampling.antt =====
-- crates/orion-runtime/src/sampling.rs: the sampler. The arithmetic of `f32` and the generator of
-- random numbers are arguments.
pub mod Choice
pub mod Bounds
pub mod Failure
pub mod Tests
use orion_serve_rs.Prelude.{
  ℕ, zero, suc, ◌+◌, ◌-◌, ◌%◌, Bool, true, false, not, ◌&&◌, ◌||◌, Option, none, some, List, [],
  ◌∷◌, map, if◌then◌else◌, ◌==◌, leb, length, get_elem?, set,
}
use orion_serve_rs.Prelude.Defaults.{unwrap_or}
use orion_serve_rs.Core.Error.{Result, ok, err, internal}
use orion_serve_rs.Core.Float32.{one, neg_infinity, is_finite, f32_lt, f32_le, f32_eq}
use orion_serve_rs.Core.Sampling.{SamplingParams, mode, is_greedy}
use orion_serve_rs.KvCache.Block.{u32_mod}

-- -1.0e30
abbrev pub masked : ℕ
masked = 4048155338

-- Numbers of type `f32` are their bits; `G` is the state of the generator.
pub record Arithmetic (G : Type 0) : Type 0 where
  pub add : ℕ → ℕ → ℕ
  pub sub : ℕ → ℕ → ℕ
  pub mul : ℕ → ℕ → ℕ
  pub div : ℕ → ℕ → ℕ
  pub exp : ℕ → ℕ
  pub of_usize : ℕ → ℕ
  pub random : G → ℕ × G
  pub seed_from_u64 : ℕ → G
  pub from_entropy : G

abbrev pub contains : List ℕ → ℕ → Bool
contains [] t = false
contains (x ∷ xs) t = if x == t then true else contains xs t

-- Each token once. The set's order is not fixed; the writes for two tokens do not touch.
unfoldable pub distinct : List ℕ → List ℕ
distinct [] = []
distinct (x ∷ xs) = let rest = distinct xs in if contains xs x then rest else x ∷ rest

-- `(i, v)` of `enumerate()`.
abbrev pub enumerate : ℕ → List ℕ → List (ℕ × ℕ)
enumerate i [] = []
enumerate i (x ∷ xs) = (i, x) ∷ enumerate (suc i) xs

-- The greatest entry, and negative infinity where there is none.
abbrev pub max_from : ℕ → List ℕ → ℕ
max_from a [] = a
max_from a (b ∷ bs) = max_from (if f32_lt a b then b else a) bs

unfoldable pub argmax_from : ℕ → List ℕ → Option ℕ → ℕ → Option ℕ
argmax_from i [] best best_val = best
argmax_from i (l ∷ ls) best best_val =
    if f32_lt best_val l
    then argmax_from (suc i) ls (some i) l
    else argmax_from (suc i) ls best best_val

unfoldable pub argmax : List ℕ → Option ℕ
unfolding argmax_from
argmax logits = argmax_from 0 logits none neg_infinity

-- A sort in descending order, by a key. Equal keys may stand in any order, and so may keys that are
-- not numbers.
abbrev pub insert_by : {A : Type 0} → (A → ℕ) → A → List A → List A
insert_by key x [] = x ∷ []
insert_by key x (y ∷ ys) = if f32_lt (key x) (key y) then y ∷ insert_by key x ys else x ∷ y ∷ ys

abbrev pub sort_by : {A : Type 0} → (A → ℕ) → List A → List A
sort_by key [] = []
sort_by key (x ∷ xs) = insert_by key x (sort_by key xs)

abbrev pub mask_below : ℕ → List ℕ → List ℕ
mask_below threshold = map (λ l. if f32_lt l threshold then masked else l)

abbrev pub mask_from : Option ℕ → List ℕ → List ℕ
mask_from none logits = logits
mask_from (some threshold) logits = mask_below threshold logits

unfoldable pub apply_top_k : List ℕ → ℕ → List ℕ
apply_top_k logits k =
    if k == 0 || leb (length logits) k
    then logits
    else mask_from (get_elem? (sort_by (λ x. x) logits) (k - 1)) logits

-- `probs.iter().rposition(|&p| p > 0.0)`
unfoldable pub last_positive : ℕ → List ℕ → Option ℕ
last_positive i [] = none
last_positive i (p ∷ ps) = elim (last_positive (suc i) ps) [
  | some j ↦ some j
  | none ↦ if f32_lt 0 p then some i else none
]

-- Writes `masked` at each index.
abbrev pub mask_all : List (ℕ × ℕ) → List ℕ → List ℕ
mask_all [] logits = logits
mask_all ((i, pr) ∷ cs) logits = mask_all cs (set logits i masked)

module _ {G : Type 0} (f : Arithmetic G) where
  abbrev pub penalize_at : ℕ → ℕ → Option ℕ → List ℕ → List ℕ
  penalize_at penalty idx none logits = logits
  penalize_at penalty idx (some l) logits =
      set logits idx (if f32_lt 0 l then f.div l penalty else f.mul l penalty)

  abbrev pub penalize : ℕ → List ℕ → List ℕ → List ℕ
  penalize penalty [] logits = logits
  penalize penalty (t ∷ ts) logits =
      penalize penalty ts (penalize_at penalty t (get_elem? logits t) logits)

  unfoldable pub apply_repetition_penalty : List ℕ → List ℕ → ℕ → List ℕ
  unfolding distinct
  apply_repetition_penalty logits previous penalty =
      if f32_eq penalty one then logits else penalize penalty (distinct previous) logits

  unfoldable pub apply_temperature : List ℕ → ℕ → List ℕ
  apply_temperature logits temperature =
      if f32_eq temperature one then logits else map (λ l. f.mul l (f.div one temperature)) logits

  abbrev pub uniform : List ℕ → List ℕ
  uniform logits = map (λ l. f.div one (f.of_usize (length logits))) logits

  -- The exponentials and their sum, in the order of the loop.
  abbrev pub exponentials : ℕ → ℕ → List ℕ → List ℕ × ℕ
  exponentials max sum [] = ([], sum)
  exponentials max sum (l ∷ ls) =
      if f32_le l masked
      then (let (out, total) = exponentials max sum ls in (0 ∷ out, total))
      else (let e = f.exp (f.sub l max) in
          let (out, total) = exponentials max (f.add sum e) ls in (e ∷ out, total))

  unfoldable pub softmax : List ℕ → List ℕ
  softmax logits =
      let max = max_from neg_infinity logits in
      if not (is_finite max) || f32_le max masked
      then uniform logits
      else (let (out, sum) = exponentials max 0 logits in
          if f32_lt 0 sum then map (λ v. f.div v sum) out else uniform logits)

  abbrev pub candidates : List (ℕ × ℕ) → List ℕ → List (ℕ × ℕ)
  candidates [] logits = []
  candidates (c ∷ cs) [] = []
  candidates ((i, pr) ∷ cs) (l ∷ ls) =
      if f32_lt 0 pr && f32_lt masked l then (i, pr) ∷ candidates cs ls else candidates cs ls

  -- The candidates after the one that crosses the threshold.
  abbrev pub past_cutoff : ℕ → ℕ → List (ℕ × ℕ) → List (ℕ × ℕ)
  past_cutoff p cumulative [] = []
  past_cutoff p cumulative ((i, pr) ∷ cs) =
      if f32_le p (f.add cumulative pr) then cs else past_cutoff p (f.add cumulative pr) cs

  unfoldable pub apply_top_p : List ℕ → ℕ → List ℕ
  unfolding softmax
  apply_top_p logits p =
      if f32_le one p
      then logits
      else mask_all
          (past_cutoff p 0 (sort_by (λ c. c.1) (candidates (enumerate 0 (softmax logits)) logits)))
          logits

  abbrev pub first_past : ℕ → ℕ → ℕ → List ℕ → Option ℕ
  first_past i r cumulative [] = none
  first_past i r cumulative (p ∷ ps) =
      if f32_lt r (f.add cumulative p) then some i else first_past (suc i) r (f.add cumulative p) ps

  unfoldable pub sample_from : List ℕ → G → ℕ × G
  unfolding last_positive
  sample_from probs g =
      let (r, g') = f.random g in
      (
        unwrap_or (first_past 0 r 0 probs) (unwrap_or (last_positive 0 probs) (length probs - 1)),
        g',
      )

  abbrev pub seeded_or : Option ℕ → G
  seeded_or none = f.from_entropy
  seeded_or (some seed) = f.seed_from_u64 seed

  abbrev pub for_params : SamplingParams → G
  for_params p = seeded_or p.seed

  abbrev pub or_empty : Option ℕ → Result ℕ
  or_empty none = err (internal "argmax over empty logits")
  or_empty (some i) = ok (i % u32_mod)

  unfoldable pub draw : List ℕ → SamplingParams → G → Result ℕ × G
  unfolding apply_temperature apply_top_k apply_top_p sample_from softmax
  draw logits p g =
      let warm = apply_temperature logits p.temperature in
      let kept = apply_top_p (apply_top_k warm p.top_k) p.top_p in
      let (i, g') = sample_from (softmax kept) g in (ok (i % u32_mod), g')

  unfoldable pub sample : G → List ℕ → List ℕ → SamplingParams → Result ℕ × G
  unfolding apply_repetition_penalty argmax draw
  sample g [] previous p = (err (internal "sampler received an empty logits row"), g)
  sample g (l ∷ ls) previous p =
      let logits = apply_repetition_penalty (l ∷ ls) previous p.repetition_penalty in
      if is_greedy (mode p) then (or_empty (argmax logits), g) else draw logits p g
