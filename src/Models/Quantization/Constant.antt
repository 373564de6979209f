-- ===== src/Models/Quantization/Constant.antt =====
-- Values that are all the same (crates/orion-models/src/quantization.rs): a group without range keeps
-- the bits of its value.
use orion_serve_rs.Prelude.{
  ℕ, zero, suc, ◌≤◌, ◌<◌, ◌≡◌, refl, ap, ◌∙◌, subst, true, false, not, List, [], ◌∷◌, ◌++◌, arith,
  length, take, drop, map, All, replicate, length-drop, take-append-drop,
}
use orion_serve_rs.Core.Float32.{is_finite, f32_lt}
use orion_serve_rs.Models.Run.{Returns, returns, Returns-bind, Returns-pass}
use orion_serve_rs.Models.Tensor.{f32_min, f32_max}
use orion_serve_rs.Models.Tensor.Shape.{length-map}
use orion_serve_rs.Models.Quantization.Packing.{unpack-pack}
use orion_serve_rs.Models.Quantization.Groups.{all_zero}
use orion_serve_rs.Models.Quantization.{
  QuantBits, QuantFloats, Group, group_size, i32_mod, all_finite, fold_range, f32_largest,
  f32_lowest, group_over, constant_group, quantize_group, quantize_groups, group_values, quantize,
  pack, unpack, dequantize_group, dequantize_groups, dequantize,
}

f32_min_largest : (v : ℕ) → v < i32_mod → is_finite v ≡ true → f32_min f32_largest v ≡ v
f32_min_largest v l h = ground arith

f32_max_lowest : (v : ℕ) → v < i32_mod → is_finite v ≡ true → f32_max f32_lowest v ≡ v
f32_max_lowest v l h = ground arith

f32_min_self : (v : ℕ) → f32_min v v ≡ v
f32_min_self v = ground arith

f32_max_self : (v : ℕ) → f32_max v v ≡ v
f32_max_self v = ground arith

abbrev pub AllSame : ℕ → List ℕ → Type 0
AllSame v = All (λ x. x ≡ v)

fold_range_eq : {a b c d : ℕ} (ys : List ℕ) → a ≡ c → b ≡ d → fold_range a b ys ≡ fold_range c d ys
fold_range_eq ys p q = cc

-- The range of a run of one value, from an accumulator that has seen it.
fold_range_self : (v : ℕ) (xs : List ℕ) → AllSame v xs → fold_range v v xs ≡ (v, v)
fold_range_self v [] h = refl
fold_range_self v (x ∷ xs) h =
    fold_range_eq xs (ap (f32_min v) h.0 ∙ f32_min_self v) (ap (f32_max v) h.0 ∙ f32_max_self v)
    ∙ fold_range_self v xs h.1

fold_range_same :
    (v x : ℕ) (xs : List ℕ)
    → v < i32_mod
    → is_finite v ≡ true
    → AllSame v (x ∷ xs)
    → fold_range f32_largest f32_lowest (x ∷ xs) ≡ (v, v)
fold_range_same v x xs l h s =
    fold_range_eq xs (ap (f32_min f32_largest) s.0 ∙ f32_min_largest v l h)
      (ap (f32_max f32_lowest) s.0 ∙ f32_max_lowest v l h)
    ∙ fold_range_self v xs s.1

AllSame-split :
    (v n : ℕ) (xs : List ℕ) → AllSame v xs → AllSame v (take n xs) × AllSame v (drop n xs)
AllSame-split v zero xs h = (tt, h)
AllSame-split v (suc n) [] h = (tt, tt)
AllSame-split v (suc n) (x ∷ xs) h = let rest = AllSame-split v n xs h.1 in ((h.0, rest.0), rest.1)

AllSame-all_finite :
    (v : ℕ) (xs : List ℕ) → is_finite v ≡ true → AllSame v xs → all_finite xs ≡ true
AllSame-all_finite v [] h s = refl
AllSame-all_finite v (x ∷ xs) h s = rw (ap is_finite s.0 ∙ h) (AllSame-all_finite v xs h s.1)

replicate_same : (v : ℕ) (xs : List ℕ) → AllSame v xs → replicate (length xs) v ≡ xs
replicate_same v [] h = refl
replicate_same v (x ∷ xs) h = rw (h.0, replicate_same v xs h.1) refl

abbrev zeros_of : List ℕ → List ℕ
zeros_of = map (λ _. 0)

zeros_append : (n : ℕ) (xs : List ℕ) → zeros_of (take n xs) ++ zeros_of (drop n xs) ≡ zeros_of xs
zeros_append zero xs = refl
zeros_append (suc n) [] = refl
zeros_append (suc n) (x ∷ xs) = ap (◌∷◌ 0) (zeros_append n xs)

zeros_drop : (n : ℕ) (xs : List ℕ) → drop n (zeros_of xs) ≡ zeros_of (drop n xs)
zeros_drop zero xs = refl
zeros_drop (suc n) [] = refl
zeros_drop (suc n) (x ∷ xs) = zeros_drop n xs

length-zeros_take : (n : ℕ) (xs : List ℕ) → length (take n (zeros_of xs)) ≡ length (take n xs)
length-zeros_take zero xs = refl
length-zeros_take (suc n) [] = refl
length-zeros_take (suc n) (x ∷ xs) = ap suc (length-zeros_take n xs)

module _ (f : QuantFloats) (v : ℕ) (small : v < i32_mod) (finite : is_finite v ≡ true)
    (no_range : f32_lt 0 (f.sub v v) ≡ false) where
  quantize_group_same :
      (bits : QuantBits) (x : ℕ) (xs : List ℕ)
      → AllSame v (x ∷ xs)
      → quantize_group f bits (x ∷ xs) ≡ constant_group f v (x ∷ xs)
  unfolding quantize_group
  quantize_group_same bits x xs s =
      ap (group_over f bits (x ∷ xs)) (fold_range_same v x xs small finite s) ∙ chosen
    where
      chosen : group_over f bits (x ∷ xs) (v, v) ≡ constant_group f v (x ∷ xs)
      chosen = rw no_range refl

  dequantize_group_same :
      (n : ℕ) (xs : List ℕ)
      → AllSame v (take n xs)
      → dequantize_group f 0 v (take n (zeros_of xs)) ≡ take n xs
  unfolding dequantize_group
  dequantize_group_same n xs s =
      ap (λ k. replicate k v) (length-zeros_take n xs) ∙ replicate_same v (take n xs) s

  abbrev Restoring : List ℕ → List Group → Type 0
  Restoring xs gs =
      (group_values gs ≡ zeros_of xs)
      × ((fuel : ℕ)
          → length xs ≤ fuel
          → dequantize_groups f fuel (map (λ g. g.scale) gs) (map (λ g. g.zero_point) gs)
              (zeros_of xs)
            ≡ xs)

  restored_nil : (fuel : ℕ) → 0 ≤ fuel → dequantize_groups f fuel [] [] [] ≡ []
  restored_nil zero h = refl
  restored_nil (suc fuel) h = refl

  restored_step :
      (fuel x : ℕ) (xs scales zs : List ℕ)
      → AllSame v (take group_size (x ∷ xs))
      → length (x ∷ xs) ≤ fuel
      → ((k : ℕ)
          → length (drop group_size (x ∷ xs)) ≤ k
          → dequantize_groups f k scales zs (zeros_of (drop group_size (x ∷ xs)))
            ≡ drop group_size (x ∷ xs))
      → dequantize_groups f fuel (0 ∷ scales) (v ∷ zs) (zeros_of (x ∷ xs)) ≡ x ∷ xs
  restored_step zero x xs scales zs s h rest = absurd (omega arith)
  restored_step (suc fuel) x xs scales zs s h rest =
      let later = rest fuel (omega (arith, length-drop group_size (x ∷ xs))) in
      let shifted =
        ap (dequantize_groups f fuel scales zs) (zeros_drop group_size (x ∷ xs)) ∙ later in
      let now = dequantize_group_same group_size (x ∷ xs) s in
      ap (λ r. r ++ dequantize_groups f fuel scales zs (drop group_size (zeros_of (x ∷ xs)))) now
      ∙ ap (λ r. take group_size (x ∷ xs) ++ r) shifted
      ∙ take-append-drop group_size (x ∷ xs)

  quantize_groups-Restoring :
      (fuel : ℕ) (bits : QuantBits) (xs : List ℕ)
      → length xs ≤ fuel
      → AllSame v xs
      → Returns (Restoring xs) (quantize_groups f fuel bits xs)
  quantize_groups-Restoring zero bits [] l s = returns (refl, restored_nil)
  quantize_groups-Restoring zero bits (x ∷ xs) l s = absurd (omega arith)
  quantize_groups-Restoring (suc fuel) bits [] l s = returns (refl, restored_nil)
  quantize_groups-Restoring (suc fuel) bits (x ∷ xs) l s =
      let group = take group_size (x ∷ xs) in
      let rest = drop group_size (x ∷ xs) in
      let (now, later) = AllSame-split v group_size (x ∷ xs) s in
      let group_is : quantize_group f bits group ≡ constant_group f v group =
        quantize_group_same bits x _ now in
      Returns-pass (not (all_finite group)) _ (ap not (AllSame-all_finite v group finite now)) (
        Returns-bind
          (quantize_groups-Restoring fuel bits rest (omega (arith, length-drop group_size (x ∷ xs)))
            later)
          λ gs p. returns (
            rw group_is (
              ap (λ r. zeros_of group ++ r) p.0 ∙ zeros_append group_size (x ∷ xs),
              λ fuel' h.
                  restored_step fuel' x xs (map (λ g. g.scale) gs) (map (λ g. g.zero_point) gs) now
                    h p.1,
            )))

  all_zeros_unpacked :
      (bits : QuantBits) (xs : List ℕ)
      → unpack (pack (zeros_of xs) bits) bits (length xs) ≡ zeros_of xs
  all_zeros_unpacked bits xs =
      subst (λ n. unpack (pack (zeros_of xs) bits) bits n ≡ zeros_of xs) (length-map (λ _. 0) xs)
        (unpack-pack (zeros_of xs) bits (all_zero bits xs))

  -- Values that are all one finite number come back bit for bit from `quantize` and `dequantize`,
  -- whatever their number and the width, if the number less itself is not above zero.
  pub dequantize-quantize_same :
      (values : List ℕ) (bits : QuantBits)
      → AllSame v values
      → Returns (λ t. dequantize f t ≡ values) (quantize f values bits)
  unfolding quantize dequantize
  dequantize-quantize_same values bits s =
      Returns-bind (quantize_groups-Restoring (length values) bits values (omega arith) s) λ gs p.
        let back : unpack (pack (group_values gs) bits) bits (length values) ≡ zeros_of values =
          rw p.0 (all_zeros_unpacked bits values) in
        returns
          (rw back (p.1 (length (zeros_of values)) (omega (arith, length-map (λ _. 0) values))))
