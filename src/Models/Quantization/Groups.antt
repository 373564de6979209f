-- ===== src/Models/Quantization/Groups.antt =====
-- Quantization by groups (crates/orion-models/src/quantization.rs, `quantize` and `dequantize`): when it
-- succeeds, what it keeps, and the groups that come back exactly.
use orion_serve_rs.Prelude.{
  ℕ, zero, suc, ◌≤◌, ◌≡◌, refl, sym, ap, ◌∙◌, subst, true, not, List, [], ◌∷◌, arith, length, take,
  drop, map, All, All-append, length-append, length-take, length-drop, length-replicate, if_elim,
}
use orion_serve_rs.Core.Float32.{one, f32_lt, f32_eq}
use orion_serve_rs.Models.Run.{Returns, returns, Returns-bind, Returns-pass}
use orion_serve_rs.Models.Tensor.Shape.{length-map}
use orion_serve_rs.Models.Quantization.{
  QuantBits, QuantizedTensor, QuantFloats, Group, group_size, max_value, clamp, all_finite,
  fold_range, f32_largest, f32_lowest, quantize_value, spread_group, constant_group, quantize_group,
  quantize_groups, group_values, tensor_of, quantize, unpack, head_or, sub_i32, dequantize_group,
  dequantize_groups, dequantize,
}
use orion_serve_rs.Models.Quantization.Packing.{unpack-pack}

clamp_le : (x max : ℕ) → clamp x max ≤ max
clamp_le x max = ground arith

-- The values of a group, as many as it has, within the range of the width.
abbrev pub InRange : QuantBits → List ℕ → Type 0
InRange bits = All (λ x. x ≤ max_value bits)

pub all_zero : (bits : QuantBits) (xs : List ℕ) → InRange bits (map (λ _. 0) xs)
all_zero bits [] = tt
all_zero bits (x ∷ xs) = (omega arith, all_zero bits xs)

module _ (f : QuantFloats) where
  all_clamped :
      (bits : QuantBits) (scale z : ℕ) (xs : List ℕ)
      → InRange bits (map (quantize_value f bits scale z) xs)
  all_clamped bits scale z [] = tt
  all_clamped bits scale z (x ∷ xs) = (clamp_le _ (max_value bits), all_clamped bits scale z xs)

  abbrev Filled : QuantBits → ℕ → Group → Type 0
  Filled bits n g = (length g.values ≡ n) × InRange bits g.values

  quantize_group-Filled :
      (bits : QuantBits) (group : List ℕ) → Filled bits (length group) (quantize_group f bits group)
  unfolding quantize_group
  quantize_group-Filled bits group =
      let (lo, hi) = fold_range f32_largest f32_lowest group in
      let range = f.sub hi lo in
      let scale = f.div range (f.of_i32 (max_value bits)) in
      let zero_point = f.round_as_i32 (f.div (f.neg lo) scale) in
      if_elim (Filled bits (length group)) (f32_lt 0 range) {x = spread_group f bits range lo group}
        {y = constant_group f lo group}
        (λ _. (
          length-map (quantize_value f bits scale zero_point) group,
          all_clamped bits scale zero_point group,
        ))
        (λ _. (length-map (λ _. 0) group, all_zero bits group))

  all_finite_split :
      (n : ℕ) (xs : List ℕ)
      → all_finite xs ≡ true
      → (all_finite (take n xs) ≡ true) × (all_finite (drop n xs) ≡ true)
  all_finite_split zero xs h = (refl, h)
  all_finite_split (suc n) [] h = (refl, refl)
  all_finite_split (suc n) (x ∷ xs) h =
      let rest = all_finite_split n xs (ground (arith, h)) in (ground (arith, h, rest.0), rest.1)

  -- The groups of the values: their quantized values, one for each, within the range.
  abbrev Grouping : QuantBits → List ℕ → List Group → Type 0
  Grouping bits xs gs = (length (group_values gs) ≡ length xs) × InRange bits (group_values gs)

  quantize_groups-Grouping :
      (fuel : ℕ) (bits : QuantBits) (xs : List ℕ)
      → length xs ≤ fuel
      → all_finite xs ≡ true
      → Returns (Grouping bits xs) (quantize_groups f fuel bits xs)
  quantize_groups-Grouping zero bits [] l h = returns (refl, tt)
  quantize_groups-Grouping zero bits (x ∷ xs) l h = absurd (omega arith)
  quantize_groups-Grouping (suc fuel) bits [] l h = returns (refl, tt)
  quantize_groups-Grouping (suc fuel) bits (x ∷ xs) l h =
      let group = take group_size (x ∷ xs) in
      let (now, later) = all_finite_split group_size (x ∷ xs) h in
      Returns-pass (not (all_finite group)) _ (ap not now) (
        Returns-bind
          (quantize_groups-Grouping fuel bits (drop group_size (x ∷ xs))
            (omega (arith, length-drop group_size (x ∷ xs))) later)
          λ gs p.
            let filled = quantize_group-Filled bits group in
            returns (
              omega (
                arith,
                length-append (quantize_group f bits group).values (group_values gs),
                filled.0,
                p.0,
                length-take group_size (x ∷ xs),
                length-drop group_size (x ∷ xs),
              ),
              All-append (λ v. v ≤ max_value bits) _ (group_values gs) filled.1 p.1,
            ))

  length-dequantize_group :
      (scale z : ℕ) (group : List ℕ) → length (dequantize_group f scale z group) ≡ length group
  unfolding dequantize_group
  length-dequantize_group scale z group =
      if_elim (λ (r : List ℕ). length r ≡ length group) (f32_eq scale 0)
        (λ _. length-replicate (length group) z)
        (λ _. length-map (λ q. f.mul (f.of_i32 (sub_i32 q z)) scale) group)

  length-dequantize_groups :
      (fuel : ℕ) (scales zs qs : List ℕ)
      → length qs ≤ fuel
      → length (dequantize_groups f fuel scales zs qs) ≡ length qs
  length-dequantize_groups zero scales zs [] l = refl
  length-dequantize_groups zero scales zs (q ∷ qs) l = absurd (omega arith)
  length-dequantize_groups (suc fuel) scales zs [] l = refl
  length-dequantize_groups (suc fuel) scales zs (q ∷ qs) l =
      let group = take group_size (q ∷ qs) in
      let rest = drop group_size (q ∷ qs) in
      let now = dequantize_group f (head_or scales one) (head_or zs 0) group in
      omega (
        arith,
        length-append now (dequantize_groups f fuel (drop 1 scales) (drop 1 zs) rest),
        length-dequantize_group (head_or scales one) (head_or zs 0) group,
        length-dequantize_groups fuel (drop 1 scales) (drop 1 zs) rest
            (omega (arith, length-drop group_size (q ∷ qs))),
        length-take group_size (q ∷ qs),
        length-drop group_size (q ∷ qs),
      )

  -- The tensor holds the values of the groups: each within the range of the width, one for each
  -- value that was given, and as many come back.
  pub record Quantized (values : List ℕ) (bits : QuantBits) (t : QuantizedTensor) : Type 0 where
    pub num_elements : t.num_elements ≡ length values
    pub unpacked : length (unpack t.packed t.bits t.num_elements) ≡ length values
    pub in_range : InRange t.bits (unpack t.packed t.bits t.num_elements)
    pub restored : length (dequantize f t) ≡ length values

  tensor_of-Quantized :
      (values : List ℕ) (bits : QuantBits) (gs : List Group)
      → Grouping bits values gs
      → Quantized values bits (tensor_of bits (length values) gs)
  unfolding dequantize
  tensor_of-Quantized values bits gs (size, range) =
      let t = tensor_of bits (length values) gs in
      let back : unpack t.packed t.bits t.num_elements ≡ group_values gs =
        subst (λ n. unpack t.packed bits n ≡ group_values gs) size
          (unpack-pack (group_values gs) bits range) in
      let qs = unpack t.packed t.bits t.num_elements in
      record {
        num_elements = refl;
        unpacked = ap length back ∙ size;
        in_range = subst (InRange bits) (sym back) range;
        restored =
            length-dequantize_groups (length qs) t.scales t.zero_points qs (omega arith)
            ∙ ap length back
            ∙ size;
      }

  -- For finite values and any arithmetic, `quantize` returns; the quantized values that its bytes
  -- hold are within the range of the width, one for each value, and `dequantize` gives back as
  -- many values as were given.
  pub quantize-Quantized :
      (values : List ℕ) (bits : QuantBits)
      → all_finite values ≡ true
      → Returns (Quantized values bits) (quantize f values bits)
  unfolding quantize
  quantize-Quantized values bits h =
      Returns-bind (quantize_groups-Grouping (length values) bits values (omega arith) h)
        λ gs p. returns (tensor_of-Quantized values bits gs p)
