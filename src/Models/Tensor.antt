-- ===== src/Models/Tensor.antt =====
-- crates/orion-models/src/tensor.rs: dense matrices of `f32` and the kernels of the forward pass.
pub mod Shape
pub mod Rope
use orion_serve_rs.Prelude.{
  ℕ, zero, suc, ◌+◌, ◌-◌, ◌*◌, ◌/◌, ◌%◌, Bool, false, not, ◌&&◌, ◌||◌, Option, none, some, List, [],
  ◌∷◌, ◌++◌, map, if◌then◌else◌, ◌==◌, ltb, leb, length, get_elem?, take, drop, cut, overwrite,
  replicate,
}
use orion_serve_rs.Core.Error.{internal}
use orion_serve_rs.Core.Float32.{one, neg_infinity, is_finite, is_nan, f32_lt}
use orion_serve_rs.Models.Run.{Run, returned, failed, ◌>>=◌, slice}
use orion_serve_rs.Models.Float.{Floats}

-- The elements are bits of `f32`, row after row.
pub record Matrix : Type 0 where
  pub elements : List ℕ
  pub rows : ℕ
  pub cols : ℕ

unfoldable pub new_matrix : List ℕ → ℕ → ℕ → Run Matrix
new_matrix elements rows cols =
    if not (length elements == rows * cols)
    then failed (internal "matrix data does not have the expected elements")
    else returned (record { elements = elements; rows = rows; cols = cols })

unfoldable pub zeros : ℕ → ℕ → Matrix
zeros rows cols = record { elements = replicate (rows * cols) 0; rows = rows; cols = cols }

-- `Some(&self.data[i * cols..(i + 1) * cols])` within the rows; the slice may panic.
unfoldable pub row : Matrix → ℕ → Run (Option (List ℕ))
row m i =
    if leb m.rows i
    then returned none
    else slice m.elements (i * m.cols) (i * m.cols + m.cols) >>= λ r. returned (some r)

-- `f32::max`: of a number and what is not one, the number.
abbrev pub f32_max : ℕ → ℕ → ℕ
f32_max a b = if is_nan a then b else (if is_nan b then a else (if f32_lt a b then b else a))

abbrev pub f32_min : ℕ → ℕ → ℕ
f32_min a b = if is_nan a then b else (if is_nan b then a else (if f32_lt b a then b else a))

abbrev pub fold_max : ℕ → List ℕ → ℕ
fold_max a [] = a
fold_max a (x ∷ xs) = fold_max (f32_max a x) xs

-- `xs.iter_mut().zip(ys.iter())`, an operation at each pair: where the right side is shorter, the
-- rest stays.
abbrev pub zip_in_place : (ℕ → ℕ → ℕ) → List ℕ → List ℕ → List ℕ
zip_in_place op [] ys = []
zip_in_place op (x ∷ xs) [] = x ∷ xs
zip_in_place op (x ∷ xs) (y ∷ ys) = op x y ∷ zip_in_place op xs ys

abbrev pub wrong_bias : Option (List ℕ) → ℕ → Bool
wrong_bias none out_features = false
wrong_bias (some b) out_features = not (length b == out_features)

-- `b[j]`, and zero without a bias.
abbrev pub bias_at : Option (List ℕ) → ℕ → ℕ
bias_at none j = 0
bias_at (some b) j = elim (get_elem? b j) [ none ↦ 0 | some x ↦ x ]

module _ (f : Floats) where
  -- A dot product, from an accumulator.
  abbrev pub dot_from : ℕ → List ℕ → List ℕ → ℕ
  dot_from acc [] ys = acc
  dot_from acc (x ∷ xs) [] = acc
  dot_from acc (x ∷ xs) (y ∷ ys) = dot_from (f.add acc (f.mul x y)) xs ys

  -- The `left` last outputs of one row of `x`.
  abbrev pub linear_row : Matrix → Option (List ℕ) → List ℕ → ℕ → ℕ → Run (List ℕ)
  linear_row weight bias xr j zero = returned []
  linear_row weight bias xr j (suc left) =
      slice weight.elements (j * weight.cols) (j * weight.cols + weight.cols) >>= λ wr.
      linear_row weight bias xr (suc j) left >>= λ rest.
      returned (f.add (dot_from 0 xr wr) (bias_at bias j) ∷ rest)

  -- The rows from the `i`th on, one after the other: they fill the output.
  abbrev pub linear_rows : Matrix → Matrix → Option (List ℕ) → ℕ → ℕ → Run (List ℕ)
  linear_rows x weight bias i zero = returned []
  linear_rows x weight bias i (suc left) =
      slice x.elements (i * x.cols) (i * x.cols + x.cols) >>= λ xr.
      linear_row weight bias xr 0 weight.rows >>= λ orow.
      linear_rows x weight bias (suc i) left >>= λ rest. returned (orow ++ rest)

  unfoldable pub linear : Matrix → Matrix → Option (List ℕ) → Run Matrix
  linear x weight bias =
      if not (x.cols == weight.cols)
      then failed (internal "linear shape mismatch")
      else (if wrong_bias bias weight.rows
          then failed (internal "bias has an unexpected length")
          else (linear_rows x weight bias 0 x.rows >>= λ out.
              returned (record { elements = out; rows = x.rows; cols = weight.rows })))

  abbrev pub sum_of_squares : ℕ → List ℕ → ℕ
  sum_of_squares acc [] = acc
  sum_of_squares acc (v ∷ vs) =
      sum_of_squares (f.add_f64 acc (f.mul_f64 (f.to_f64 v) (f.to_f64 v))) vs

  -- One over the root of the mean square, narrowed.
  abbrev pub rms_scale : ℕ → ℕ → List ℕ → ℕ
  rms_scale cols eps row =
      let mean = f.div_f64 (sum_of_squares 0 row) (f.usize_to_f64 cols) in
      f.of_f64 (f.div_f64 (f.to_f64 one) (f.sqrt_f64 (f.add_f64 mean (f.to_f64 eps))))

  abbrev pub norm_row : List ℕ → ℕ → ℕ → List ℕ → List ℕ
  norm_row weight cols eps row =
      let scale = rms_scale cols eps row in zip_in_place (λ v w. f.mul (f.mul v scale) w) row weight

  -- The chunks of `cols` elements, the last one as long as what is left; the fuel is the length.
  abbrev pub norm_chunks : ℕ → List ℕ → ℕ → ℕ → List ℕ → List ℕ
  norm_chunks zero weight cols eps xs = []
  norm_chunks (suc fuel) weight cols eps [] = []
  norm_chunks (suc fuel) weight cols eps (x ∷ xs) =
      norm_row weight cols eps (take cols (x ∷ xs))
      ++ norm_chunks fuel weight cols eps (drop cols (x ∷ xs))

  -- `chunks_mut(0)` panics.
  unfoldable pub rms_norm : Matrix → List ℕ → ℕ → Run Matrix
  rms_norm x weight eps =
      if not (length weight == x.cols)
      then failed (internal "rms_norm weight has an unexpected length")
      else (if x.cols == 0
          then Run.panic
          else returned (record x {
            elements = norm_chunks (length x.elements) weight x.cols eps x.elements;
          }))

  abbrev pub silu : ℕ → ℕ
  silu x = f.div x (f.add one (f.exp (f.neg x)))

  unfoldable pub swiglu : Matrix → Matrix → Run Matrix
  swiglu gate up =
      if not (gate.rows == up.rows) || not (gate.cols == up.cols)
      then failed (internal "swiglu shape mismatch")
      else returned (record gate {
        elements = zip_in_place (λ g u. f.mul (silu g) u) gate.elements up.elements;
      })

  -- The exponentials and their sum, in the order of the loop.
  abbrev pub exponentials : ℕ → ℕ → List ℕ → List ℕ × ℕ
  exponentials max sum [] = ([], sum)
  exponentials max sum (v ∷ vs) =
      let e = f.exp (f.sub v max) in
      let (out, total) = exponentials max (f.add sum e) vs in (e ∷ out, total)

  unfoldable pub softmax_inplace : List ℕ → List ℕ
  softmax_inplace x =
      let max = fold_max neg_infinity x in
      if not (is_finite max)
      then map (λ v. f.div one (f.of_usize (length x))) x
      else (let (out, sum) = exponentials max 0 x in
          if f32_lt 0 sum then map (λ v. f.div v sum) out else out)

-- `[max_positions, head_dim / 2]`, twice.
pub record RopeTable : Type 0 where
  pub cos : List ℕ
  pub sin : List ℕ
  pub head_dim : ℕ
  pub max_positions : ℕ

-- `Some((&cos[pos * half..], &sin[pos * half..]))` within the positions.
unfoldable pub at : RopeTable → ℕ → Run (Option (List ℕ × List ℕ))
at t pos =
    let half = t.head_dim / 2 in
    if leb t.max_positions pos
    then returned none
    else (slice t.cos (pos * half) (pos * half + half) >>= λ c.
        slice t.sin (pos * half) (pos * half + half) >>= λ s. returned (some (c, s)))

-- 2.0
abbrev pub two : ℕ
two = 1073741824

module _ (f : Floats) where
  abbrev pub angle : ℕ → ℕ → ℕ → ℕ → ℕ
  angle head_dim theta pos i =
      let ratio = f.div (f.mul two (f.of_usize i)) (f.of_usize head_dim) in
      f.mul (f.of_usize pos) (f.div one (f.powf theta ratio))

  abbrev pub angles_at : ℕ → ℕ → ℕ → ℕ → ℕ → List ℕ
  angles_at head_dim theta pos i zero = []
  angles_at head_dim theta pos i (suc left) =
      angle head_dim theta pos i ∷ angles_at head_dim theta pos (suc i) left

  -- The angles in the order in which the loops push them.
  abbrev pub angles : ℕ → ℕ → ℕ → ℕ → List ℕ
  angles head_dim theta pos zero = []
  angles head_dim theta pos (suc left) =
      angles_at head_dim theta pos 0 (head_dim / 2) ++ angles head_dim theta (suc pos) left

  unfoldable pub new_rope : ℕ → ℕ → ℕ → Run RopeTable
  new_rope head_dim max_positions theta =
      if not (head_dim % 2 == 0)
      then failed (internal "RoPE requires an even head_dim")
      else returned (record {
        cos = map f.cos (angles head_dim theta 0 max_positions);
        sin = map f.sin (angles head_dim theta 0 max_positions);
        head_dim = head_dim;
        max_positions = max_positions;
      })

  -- The first halves and the second halves after the rotation, index by index.
  abbrev pub rotate : List ℕ → List ℕ → List ℕ → List ℕ → List ℕ × List ℕ
  rotate (x ∷ xs) (y ∷ ys) (c ∷ cs) (s ∷ ss) =
      let (firsts, seconds) = rotate xs ys cs ss in
      (f.sub (f.mul x c) (f.mul y s) ∷ firsts, f.add (f.mul x s) (f.mul y c) ∷ seconds)
  rotate xs ys cs ss = ([], [])

  -- An odd element at the end stays.
  unfoldable pub apply_rope : List ℕ → List ℕ → List ℕ → Run (List ℕ)
  apply_rope vec cos sin =
      let half = length vec / 2 in
      if not (length cos == half) || not (length sin == half)
      then failed (internal "RoPE table width does not match half of head_dim")
      else (let (firsts, seconds) = rotate (take half vec) (cut vec half half) cos sin in
          returned (firsts ++ seconds ++ drop (half + half) vec))
