-- ===== src/Models/Tensor/Shape.antt =====
-- The shapes of the kernels (crates/orion-models/src/tensor.rs): on operands that fit, a kernel
-- returns, no slice out of range, and its result has the shape it should have.
use native.Mathlib.Nat.{suc-mul}
use orion_serve_rs.Prelude.{
  ℕ, zero, suc, ◌+◌, ◌*◌, ◌≤◌, ◌<◌, ◌≡◌, refl, sym, ap, ◌∙◌, false, Option, List, [], ◌∷◌, map,
  arith, ◌==◌, length, take, drop, length-append, length-take, length-drop, length-cut,
  length-replicate, leb, not, ◌||◌, subst, if_elim,
}
use orion_serve_rs.Core.Float32.{neg_infinity, is_finite, f32_lt}
use orion_serve_rs.Models.Run.{
  slice, expect, ◌>>=◌, Returns, returns, Returns-bind, slice_inside, Returns-pass, agrees,
}
use orion_serve_rs.Models.Float.{Floats}
use orion_serve_rs.Models.Tensor.{
  Matrix, new_matrix, zeros, row, zip_in_place, wrong_bias, linear_row, linear_rows, linear,
  norm_row, norm_chunks, rms_scale, fold_max, rms_norm, swiglu, exponentials, softmax_inplace,
}

pub record Shaped (n k : ℕ) (m : Matrix) : Type 0 where
  pub size : length m.elements ≡ n * k
  pub rows : m.rows ≡ n
  pub cols : m.cols ≡ k

abbrev pub HasLength : ℕ → List ℕ → Type 0
HasLength n xs = length xs ≡ n

pub slice-HasLength :
    (xs : List ℕ) (start n : ℕ)
    → start + n ≤ length xs
    → Returns (HasLength n) (slice xs start (start + n))
slice-HasLength xs start n h = rw (slice_inside xs start n h) (returns (length-cut xs start n h))

pub row_inside : (i k n : ℕ) → i < n → i * k + k ≤ n * k
row_inside i k n h = grind arith

pub new_matrix-Shaped :
    (xs : List ℕ) (n k : ℕ) → length xs ≡ n * k → Returns (Shaped n k) (new_matrix xs n k)
unfolding new_matrix
new_matrix-Shaped xs n k h =
    Returns-pass _ _ (agrees h) (returns (record { size = h; rows = refl; cols = refl }))

pub zeros-Shaped : (n k : ℕ) → Shaped n k (zeros n k)
unfolding zeros
zeros-Shaped n k = record { size = length-replicate _ 0; rows = refl; cols = refl }

-- A row within the matrix is there.
pub row-HasLength :
    (n k : ℕ) (m : Matrix) (i : ℕ)
    → Shaped n k m
    → i < n
    → Returns (HasLength k) (row m i >>= expect)
unfolding row
row-HasLength n k m i s h =
    let inside : i * m.cols + m.cols ≤ length m.elements =
      rw (s.cols, s.size) (row_inside i k n h) in
    let there : leb m.rows i ≡ false = ground (arith, s.rows) in
    rw (there, slice_inside m.elements (i * m.cols) m.cols inside)
      (returns (length-cut m.elements (i * m.cols) m.cols inside ∙ s.cols))

pub length-zip_in_place :
    (op : ℕ → ℕ → ℕ) (xs ys : List ℕ) → length (zip_in_place op xs ys) ≡ length xs
length-zip_in_place op [] ys = refl
length-zip_in_place op (x ∷ xs) [] = refl
length-zip_in_place op (x ∷ xs) (y ∷ ys) = ap suc (length-zip_in_place op xs ys)

pub length-map : (g : ℕ → ℕ) (xs : List ℕ) → length (map g xs) ≡ length xs
length-map g [] = refl
length-map g (x ∷ xs) = ap suc (length-map g xs)

module _ (f : Floats) where
  linear_row-HasLength :
      (o k : ℕ) (weight : Matrix) (bias : Option (List ℕ)) (xr : List ℕ) (j left : ℕ)
      → Shaped o k weight
      → j + left ≡ o
      → Returns (HasLength left) (linear_row f weight bias xr j left)
  linear_row-HasLength o k weight bias xr j zero s h = returns refl
  linear_row-HasLength o k weight bias xr j (suc left) s h =
      Returns-bind
        (slice-HasLength weight.elements (j * weight.cols) weight.cols
          (rw (s.cols, s.size) (row_inside j k o (omega arith))))
        λ wr _.
          Returns-bind (linear_row-HasLength o k weight bias xr (suc j) left s (omega arith))
            λ rest l. returns (ap suc l)

  linear_rows-HasLength :
      (n o k : ℕ) (x weight : Matrix) (bias : Option (List ℕ)) (i left : ℕ)
      → Shaped n k x
      → Shaped o k weight
      → i + left ≡ n
      → Returns (HasLength (left * o)) (linear_rows f x weight bias i left)
  linear_rows-HasLength n o k x weight bias i zero s w h = returns (omega arith)
  linear_rows-HasLength n o k x weight bias i (suc left) s w h =
      Returns-bind
        (slice-HasLength x.elements (i * x.cols) x.cols
          (rw (s.cols, s.size) (row_inside i k n (omega arith))))
        λ xr _.
          Returns-bind
            (linear_row-HasLength o k weight bias xr 0 weight.rows w (omega (arith, w.rows)))
            λ orow l.
              Returns-bind
                (linear_rows-HasLength n o k x weight bias (suc i) left s w (omega arith))
                λ rest l'. returns (omega (arith, length-append orow rest, suc-mul left o, w.rows))

  pub linear-Shaped :
      (n o k : ℕ) (x weight : Matrix) (bias : Option (List ℕ))
      → Shaped n k x
      → Shaped o k weight
      → wrong_bias bias o ≡ false
      → Returns (Shaped n o) (linear f x weight bias)
  unfolding linear
  linear-Shaped n o k x weight bias s w b = Returns-pass _ _ (agrees (s.cols ∙ sym w.cols)) (
      Returns-pass (wrong_bias bias weight.rows) _ (rw w.rows b) (
        Returns-bind
          (linear_rows-HasLength n o k x weight bias 0 x.rows s w (omega (arith, s.rows)))
          λ out l.
            returns (record { size = l ∙ ap (λ r. r * o) s.rows; rows = s.rows; cols = w.rows })))

  norm_chunks-length :
      (fuel k : ℕ) (weight : List ℕ) (eps : ℕ) (xs : List ℕ)
      → length xs ≤ fuel
      → length (norm_chunks f fuel weight (suc k) eps xs) ≡ length xs
  norm_chunks-length zero k weight eps [] h = refl
  norm_chunks-length zero k weight eps (x ∷ xs) h = absurd (omega arith)
  norm_chunks-length (suc fuel) k weight eps [] h = refl
  norm_chunks-length (suc fuel) k weight eps (x ∷ xs) h = omega (
    arith,
    length-append (norm_row f weight (suc k) eps (take (suc k) (x ∷ xs)))
        (norm_chunks f fuel weight (suc k) eps (drop (suc k) (x ∷ xs))),
    length-zip_in_place (λ v w. f.mul (f.mul v (rms_scale f (suc k) eps (take (suc k) (x ∷ xs)))) w)
        (take (suc k) (x ∷ xs)) weight,
    length-take (suc k) (x ∷ xs),
    length-drop (suc k) (x ∷ xs),
    norm_chunks-length fuel k weight eps (drop (suc k) (x ∷ xs))
        (omega (arith, length-drop (suc k) (x ∷ xs))),
  )

  pub rms_norm-Shaped :
      (n k : ℕ) (x : Matrix) (weight : List ℕ) (eps : ℕ)
      → Shaped n (suc k) x
      → length weight ≡ suc k
      → Returns (Shaped n (suc k)) (rms_norm f x weight eps)
  unfolding rms_norm
  rms_norm-Shaped n k x weight eps s l = Returns-pass _ _ (agrees (l ∙ sym s.cols)) (
      Returns-pass (x.cols == 0) _ (ground (arith, s.cols)) (
        returns (record {
          size =
              subst
                (λ c.
                  length (norm_chunks f (length x.elements) weight c eps x.elements)
                  ≡ length x.elements)
                (sym s.cols)
                (norm_chunks-length (length x.elements) k weight eps x.elements (omega arith))
              ∙ s.size;
          rows = s.rows;
          cols = s.cols;
        })))

  pub swiglu-Shaped :
      (n k : ℕ) (gate up : Matrix)
      → Shaped n k gate
      → Shaped n k up
      → Returns (Shaped n k) (swiglu f gate up)
  unfolding swiglu
  swiglu-Shaped n k gate up s t =
      Returns-pass (not (gate.rows == up.rows) || not (gate.cols == up.cols)) _
        (ground (arith, s.rows, s.cols, t.rows, t.cols))
        (returns (record {
          size = length-zip_in_place _ gate.elements up.elements ∙ s.size;
          rows = s.rows;
          cols = s.cols;
        }))

  length-exponentials :
      (max sum : ℕ) (xs : List ℕ) → length (exponentials f max sum xs).0 ≡ length xs
  length-exponentials max sum [] = refl
  length-exponentials max sum (x ∷ xs) =
      ap suc (length-exponentials max (f.add sum (f.exp (f.sub x max))) xs)

  pub length-softmax_inplace : (xs : List ℕ) → length (softmax_inplace f xs) ≡ length xs
  unfolding softmax_inplace
  length-softmax_inplace xs =
      let size = λ (r : List ℕ). length r ≡ length xs in
      if_elim size (not (is_finite (fold_max neg_infinity xs))) (λ _. length-map _ xs)
        λ _.
          if_elim size (f32_lt 0 (exponentials f (fold_max neg_infinity xs) 0 xs).1)
            (λ _. length-map _ _ ∙ length-exponentials _ 0 xs) (λ _. length-exponentials _ 0 xs)
