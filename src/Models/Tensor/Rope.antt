-- ===== src/Models/Tensor/Rope.antt =====
-- The rotary tables (crates/orion-models/src/tensor.rs, `RopeTable` and `apply_rope`): their sizes,
-- and the size of a head vector that they rotate.
use native.Mathlib.Nat.{suc-mul}
use orion_serve_rs.Prelude.{
  ℕ, zero, suc, ◌+◌, ◌*◌, ◌/◌, ◌%◌, ◌≤◌, ◌<◌, ◌≡◌, refl, sym, ap, ◌∙◌, false, not, ◌||◌, List, [],
  ◌∷◌, ◌++◌, arith, ◌==◌, leb, length, take, drop, cut, length-append, length-take, length-drop,
  length-cut,
}
use orion_serve_rs.Models.Run.{expect, ◌>>=◌, Returns, returns, Returns-pass, slice_inside, agrees}
use orion_serve_rs.Models.Float.{Floats}
use orion_serve_rs.Models.Tensor.{RopeTable, at, angles_at, angles, new_rope, rotate, apply_rope}
use orion_serve_rs.Models.Tensor.Shape.{HasLength, length-map, row_inside}

-- A table of `p` positions for heads of `d` elements.
pub record Spans (d p : ℕ) (t : RopeTable) : Type 0 where
  pub cos : length t.cos ≡ p * (d / 2)
  pub sin : length t.sin ≡ p * (d / 2)
  pub head_dim : t.head_dim ≡ d
  pub max_positions : t.max_positions ≡ p

abbrev pub HalfPair : ℕ → List ℕ × List ℕ → Type 0
HalfPair d cs = (length cs.0 ≡ d / 2) × (length cs.1 ≡ d / 2)

-- A position of the table has half a head of cosines and of sines.
pub at-HalfPair :
    (d p : ℕ) (t : RopeTable) (pos : ℕ)
    → Spans d p t
    → pos < p
    → Returns (HalfPair d) (at t pos >>= expect)
unfolding at
at-HalfPair d p t pos s h =
    let half = t.head_dim / 2 in
    let same : half ≡ d / 2 = ap (λ x. x / 2) s.head_dim in
    let room : pos * half + half ≤ p * (d / 2) = rw same (row_inside pos (d / 2) p h) in
    let there : leb t.max_positions pos ≡ false = ground (arith, s.max_positions) in
    let in_cos : pos * half + half ≤ length t.cos = omega (arith, s.cos) in
    let in_sin : pos * half + half ≤ length t.sin = omega (arith, s.sin) in
    rw
      (
        there,
        slice_inside t.cos (pos * half) half in_cos,
        slice_inside t.sin (pos * half) half in_sin,
      )
      (returns (
        length-cut t.cos (pos * half) half in_cos ∙ same,
        length-cut t.sin (pos * half) half in_sin ∙ same,
      ))

module _ (f : Floats) where
  length-angles_at : (d theta pos i n : ℕ) → length (angles_at f d theta pos i n) ≡ n
  length-angles_at d theta pos i zero = refl
  length-angles_at d theta pos i (suc n) = ap suc (length-angles_at d theta pos (suc i) n)

  length-angles : (d theta pos n : ℕ) → length (angles f d theta pos n) ≡ n * (d / 2)
  length-angles d theta pos zero = omega arith
  length-angles d theta pos (suc n) = omega (
    arith,
    length-append (angles_at f d theta pos 0 (d / 2)) (angles f d theta (suc pos) n),
    length-angles_at d theta pos 0 (d / 2),
    length-angles d theta (suc pos) n,
    suc-mul n (d / 2),
  )

  pub new_rope-Spans : (d p theta : ℕ) → (d % 2) ≡ 0 → Returns (Spans d p) (new_rope f d p theta)
  unfolding new_rope
  new_rope-Spans d p theta even = Returns-pass _ _ (agrees even) (
      returns (record {
        cos = length-map _ _ ∙ length-angles d theta 0 p;
        sin = length-map _ _ ∙ length-angles d theta 0 p;
        head_dim = refl;
        max_positions = refl;
      }))

  length-halves :
      (n : ℕ) (firsts seconds vec : List ℕ)
      → length firsts ≡ n
      → length seconds ≡ n
      → n + n ≤ length vec
      → length (firsts ++ seconds ++ drop (n + n) vec) ≡ length vec
  length-halves n firsts seconds vec l r h = omega (
    arith,
    length-append (firsts ++ seconds) (drop (n + n) vec),
    length-append firsts seconds,
    length-drop (n + n) vec,
  )

  rotate_lengths :
      (n : ℕ) (xs ys cs ss : List ℕ)
      → length xs ≡ n
      → length ys ≡ n
      → length cs ≡ n
      → length ss ≡ n
      → (length (rotate f xs ys cs ss).0 ≡ n) × (length (rotate f xs ys cs ss).1 ≡ n)
  rotate_lengths zero [] ys cs ss a b c d = (refl, refl)
  rotate_lengths (suc n) (x ∷ xs) (y ∷ ys) (c ∷ cs) (s ∷ ss) p q r t =
      let (fst, snd) =
        rotate_lengths n xs ys cs ss (omega arith) (omega arith) (omega arith) (omega arith) in
      (ap suc fst, ap suc snd)
  rotate_lengths _ _ _ _ _ p q r t = absurd (omega arith)

  pub apply_rope-HasLength :
      (d : ℕ) (vec : List ℕ) (cs : List ℕ × List ℕ)
      → length vec ≡ d
      → HalfPair d cs
      → Returns (HasLength d) (apply_rope f vec cs.0 cs.1)
  unfolding apply_rope
  apply_rope-HasLength d vec (cos, sin) l h =
      let half = length vec / 2 in
      let same : d / 2 ≡ half = ap (λ n. n / 2) (sym l) in
      let first = take half vec in
      let second = cut vec half half in
      let (fst, snd) =
        rotate_lengths half first second cos sin (omega (arith, length-take half vec))
          (length-cut vec half half (omega arith)) (h.0 ∙ same) (h.1 ∙ same) in
      let turned = rotate f first second cos sin in
      Returns-pass (not (length cos == half) || not (length sin == half)) _
        (ground (arith, h.0, h.1, same))
        (returns (length-halves half turned.0 turned.1 vec fst snd (omega arith) ∙ l))
