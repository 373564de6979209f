-- ===== src/Runtime/Sampling/Choice.antt =====
-- The greedy choice (crates/orion-runtime/src/sampling.rs).
use orion_serve_rs.Prelude.{
  subst, ℕ, zero, suc, ◌+◌, ◌<◌, ◌≡◌, refl, sym, ap, ◌∙◌, ◌⊎◌, inl, inr, true, false, Option, none,
  some, List, [], ◌∷◌, arith, Bool-cases, get_elem?,
}
use orion_serve_rs.Core.Float32.{neg_infinity, f32_lt, f32_eq}
use orion_serve_rs.Runtime.Sampling.{argmax_from, argmax}

f32_lt_trans : (x y z : ℕ) → f32_lt x y ≡ true → f32_lt y z ≡ true → f32_lt x z ≡ true
f32_lt_trans x y z a b = ground (arith, a, b)

f32_lt_irrefl : (x : ℕ) → f32_lt x x ≡ false
f32_lt_irrefl x = ground arith

f32_lt_asym : (x y : ℕ) → f32_lt x y ≡ true → f32_lt y x ≡ false
f32_lt_asym x y a = ground (arith, a)

f32_lt_ne : (x y : ℕ) → f32_lt x y ≡ true → f32_eq x y ≡ false
f32_lt_ne x y a = ground (arith, a)

-- What is not above `b` is neither above nor equal to what is.
above_not_below :
    (b l v : ℕ)
    → f32_lt b l ≡ false
    → f32_lt b v ≡ true
    → (f32_lt v l ≡ false) × (f32_eq l v ≡ false)
above_not_below b l v low high = (ground (arith, low, high), ground (arith, low, high))

-- No entry is above `b`.
abbrev pub NoneAbove : ℕ → List ℕ → Type 0
NoneAbove b ls = (j w : ℕ) → get_elem? ls j ≡ some w → f32_lt b w ≡ false

-- The entry at `k` is greater than `b`, no entry is greater, and none before it is equal.
abbrev pub FirstGreatest : ℕ → List ℕ → ℕ → ℕ → Type 0
FirstGreatest b ls k v =
    (get_elem? ls k ≡ some v)
    × (f32_lt b v ≡ true)
    × NoneAbove v ls
    × ((j w : ℕ) → j < k → get_elem? ls j ≡ some w → f32_eq w v ≡ false)

-- The outcome of the scan from an index on.
abbrev Scanned : ℕ → List ℕ → Option ℕ → ℕ → Option ℕ → Type 0
Scanned i ls best b r =
    ((r ≡ best) × NoneAbove b ls)
    ⊎ ((k : ℕ) × (v : ℕ) × (r ≡ some (i + k)) × FirstGreatest b ls k v)

some_injective : (a b : ℕ) → some a ≡ some b → a ≡ b
some_injective a b e = ground (arith, e)

at_cons :
    {P : ℕ → Type 0} (l : ℕ) (ls : List ℕ)
    → P l
    → ((j w : ℕ) → get_elem? ls j ≡ some w → P w)
    → (j w : ℕ) → get_elem? (l ∷ ls) j ≡ some w
    → P w
at_cons {P = P} l ls head tail zero w e = subst P (some_injective l w e) head
at_cons l ls head tail (suc j) w e = tail j w e

before_cons :
    {P : ℕ → Type 0} (l : ℕ) (ls : List ℕ) (k : ℕ)
    → P l
    → ((j w : ℕ) → j < k → get_elem? ls j ≡ some w → P w)
    → (j w : ℕ) → j < suc k
    → get_elem? (l ∷ ls) j ≡ some w
    → P w
before_cons {P = P} l ls k head tail zero w lt e = subst P (some_injective l w e) head
before_cons l ls k head tail (suc j) w lt e = tail j w (omega (arith, lt)) e

argmax_from-Scanned :
    (i : ℕ) (ls : List ℕ) (best : Option ℕ) (b : ℕ) → Scanned i ls best b (argmax_from i ls best b)
unfolding argmax_from
argmax_from-Scanned i [] best b = inl (refl, λ j w e. absurd (ground (arith, e)))
argmax_from-Scanned i (l ∷ ls) best b = elim (Bool-cases (f32_lt b l)) [
  | inl higher ↦
      rw (higher, argmax_from)
        (elim (argmax_from-Scanned (suc i) ls (some i) l) [
          | inl (e, none_above) ↦ inr (
            0,
            l,
            e ∙ ap some (omega arith),
            (
              refl,
              higher,
              at_cons {P = λ w. f32_lt l w ≡ false} l ls (f32_lt_irrefl l) none_above,
              λ j w lt e'. absurd (omega (arith, lt)),
            ),
          )
          | inr (k, v, e, (there, above, none_above, first)) ↦ inr (
            suc k,
            v,
            e ∙ ap some (omega arith),
            (
              there,
              f32_lt_trans b l v higher above,
              at_cons {P = λ w. f32_lt v w ≡ false} l ls (f32_lt_asym l v above) none_above,
              before_cons {P = λ w. f32_eq w v ≡ false} l ls k (f32_lt_ne l v above) first,
            ),
          )
        ])
  | inr lower ↦
      rw (lower, argmax_from)
        (elim (argmax_from-Scanned (suc i) ls best b) [
          | inl (e, none_above) ↦
              inl (e, at_cons {P = λ w. f32_lt b w ≡ false} l ls lower none_above)
          | inr (k, v, e, (there, above, none_above, first)) ↦
              let (not_above, not_equal) = above_not_below b l v lower above in
              inr (
                suc k,
                v,
                e ∙ ap some (omega arith),
                (
                  there,
                  above,
                  at_cons {P = λ w. f32_lt v w ≡ false} l ls not_above none_above,
                  before_cons {P = λ w. f32_eq w v ≡ false} l ls k not_equal first,
                ),
              )
        ])
]

-- What the greedy choice is: the first of the greatest entries, or nothing above negative infinity.
abbrev pub Greedy : List ℕ → Option ℕ → Type 0
Greedy ls none = NoneAbove neg_infinity ls
Greedy ls (some k) = (v : ℕ) × FirstGreatest neg_infinity ls k v

-- `argmax` gives an index whose entry is above negative infinity, such that no entry is greater
-- and none before it is equal, or nothing where no entry is above negative infinity, also among
-- entries that are not numbers.
pub argmax-Greedy : (logits : List ℕ) → Greedy logits (argmax logits)
unfolding argmax
argmax-Greedy logits = elim (argmax_from-Scanned 0 logits none neg_infinity) [
  | inl (e, none_above) ↦ rw e none_above
  | inr (k, v, e, first) ↦ subst (Greedy logits) (sym (e ∙ ap some (omega arith))) (v, first)
]
