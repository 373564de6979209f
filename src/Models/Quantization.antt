-- ===== src/Models/Quantization.antt =====
-- crates/orion-models/src/quantization.rs: group-wise quantization of weights to eight or four bits.
-- An `i32` is its bit pattern, below 2 ^ 32; its sum and its difference wrap, as in a build without
-- overflow checks.
pub mod Packing
pub mod Groups
pub mod Constant
use Prim.Native.Nat.{◌^◌}
use orion_serve_rs.Prelude.{
  ℕ, zero, suc, ◌+◌, ◌-◌, ◌*◌, ◌/◌, ◌%◌, min, Bool, true, false, not, ◌||◌, List, [], ◌∷◌, ◌++◌,
  map, if◌then◌else◌, ◌==◌, ltb, leb, length, take, drop, replicate,
}
use orion_serve_rs.Core.Error.{internal}
use orion_serve_rs.Core.Float32.{one, is_finite, f32_lt, f32_eq}
use orion_serve_rs.Models.Run.{Run, returned, failed, ◌>>=◌}
use orion_serve_rs.Models.Tensor.{f32_max, f32_min}

-- GROUP_SIZE
abbrev pub group_size : ℕ
group_size = 128

pub data QuantBits : Type 0 where
  int8 int4 : QuantBits

abbrev pub bits_of : QuantBits → ℕ
bits_of int8 = 8
bits_of int4 = 4

abbrev pub levels : QuantBits → ℕ
levels b = 2 ^ bits_of b

abbrev pub max_value : QuantBits → ℕ
max_value b = levels b - 1

-- Bytes, bits of `f32`, and bit patterns of `i32`.
pub record QuantizedTensor : Type 0 where
  pub packed : List ℕ
  pub scales : List ℕ
  pub zero_points : List ℕ
  pub num_elements : ℕ
  pub bits : QuantBits

unfoldable pub size_in_bytes : QuantizedTensor → ℕ
size_in_bytes t = length t.packed + length t.scales * 4 + length t.zero_points * 4

abbrev pub num_groups : QuantizedTensor → ℕ
num_groups t = length t.scales

-- What the quantization asks of `f32`: the operations, the rounding to an `i32`, which saturates,
-- and the conversion back.
pub record QuantFloats : Type 0 where
  pub sub : ℕ → ℕ → ℕ
  pub div : ℕ → ℕ → ℕ
  pub mul : ℕ → ℕ → ℕ
  pub neg : ℕ → ℕ
  -- `as f32`
  pub of_i32 : ℕ → ℕ
  pub round_as_i32 : ℕ → ℕ

abbrev pub i32_mod : ℕ
i32_mod = 4294967296

abbrev pub add_i32 : ℕ → ℕ → ℕ
add_i32 a b = (a + b) % i32_mod

abbrev pub sub_i32 : ℕ → ℕ → ℕ
sub_i32 a b = (a + i32_mod - b) % i32_mod

-- `x.clamp(0, max)`; a pattern with the sign bit is below zero.
abbrev pub clamp : ℕ → ℕ → ℕ
clamp x max = if leb 2147483648 x then 0 else min x max

-- `v as u8`
abbrev pub as_u8 : ℕ → ℕ
as_u8 v = v % 256

-- Two values in a byte, the first one in the low half: the halves of `lo | (hi << 4)` share no bit.
abbrev pub pack_pairs : List ℕ → List ℕ
pack_pairs [] = []
pack_pairs (x ∷ []) = (as_u8 x % 16) ∷ []
pack_pairs (x ∷ y ∷ xs) = (as_u8 x % 16 + as_u8 y % 16 * 16) ∷ pack_pairs xs

unfoldable pub pack : List ℕ → QuantBits → List ℕ
pack values int8 = map as_u8 values
pack values int4 = pack_pairs values

-- `have` values are out already.
abbrev pub unpack_pairs : List ℕ → ℕ → ℕ → List ℕ
unpack_pairs [] have count = []
unpack_pairs (byte ∷ bytes) have count =
    let more = unpack_pairs bytes (have + 2) count in
    if ltb (have + 1) count
    then (byte % 16) ∷ (byte / 16) ∷ (if leb count (have + 2) then [] else more)
    else (byte % 16) ∷ []

unfoldable pub unpack : List ℕ → QuantBits → ℕ → List ℕ
unpack bytes int8 count = take count bytes
unpack bytes int4 count = unpack_pairs bytes 0 count

abbrev pub all_finite : List ℕ → Bool
all_finite [] = true
all_finite (v ∷ vs) = if is_finite v then all_finite vs else false

-- f32::MAX and f32::MIN
abbrev pub f32_largest : ℕ
f32_largest = 2139095039

abbrev pub f32_lowest : ℕ
f32_lowest = 4286578687

-- The least and the greatest entry.
abbrev pub fold_range : ℕ → ℕ → List ℕ → ℕ × ℕ
fold_range lo hi [] = (lo, hi)
fold_range lo hi (v ∷ vs) = fold_range (f32_min lo v) (f32_max hi v) vs

-- What a group gives: its values, its scale and its zero point.
pub record Group : Type 0 where
  pub values : List ℕ
  pub scale : ℕ
  pub zero_point : ℕ

module _ (f : QuantFloats) where
  abbrev pub quantize_value : QuantBits → ℕ → ℕ → ℕ → ℕ
  quantize_value bits scale zero_point v =
      clamp (add_i32 (f.round_as_i32 (f.div v scale)) zero_point) (max_value bits)

  abbrev pub spread_group : QuantBits → ℕ → ℕ → List ℕ → Group
  spread_group bits range lo group =
      let scale = f.div range (f.of_i32 (max_value bits)) in
      let zero_point = f.round_as_i32 (f.div (f.neg lo) scale) in
      record {
        values = map (quantize_value bits scale zero_point) group;
        scale = scale;
        zero_point = zero_point;
      }

  -- A group without range keeps its value as bits in the zero point.
  abbrev pub constant_group : ℕ → List ℕ → Group
  constant_group lo group = record { values = map (λ _. 0) group; scale = 0; zero_point = lo }

  abbrev pub group_over : QuantBits → List ℕ → ℕ × ℕ → Group
  group_over bits group (lo, hi) =
      let range = f.sub hi lo in
      if f32_lt 0 range then spread_group bits range lo group else constant_group lo group

  unfoldable pub quantize_group : QuantBits → List ℕ → Group
  quantize_group bits group = group_over bits group (fold_range f32_largest f32_lowest group)

  -- The groups of `chunks(GROUP_SIZE)`; the fuel is the number of values.
  abbrev pub quantize_groups : ℕ → QuantBits → List ℕ → Run (List Group)
  quantize_groups zero bits values = returned []
  quantize_groups (suc fuel) bits [] = returned []
  quantize_groups (suc fuel) bits (v ∷ vs) =
      let group = take group_size (v ∷ vs) in
      let rest = quantize_groups fuel bits (drop group_size (v ∷ vs)) in
      if not (all_finite group)
      then failed (internal "cannot quantize a group containing a non-finite value")
      else (rest >>= λ groups. returned (quantize_group bits group ∷ groups))

abbrev pub group_values : List Group → List ℕ
group_values [] = []
group_values (g ∷ gs) = g.values ++ group_values gs

abbrev pub tensor_of : QuantBits → ℕ → List Group → QuantizedTensor
tensor_of bits n groups = record {
  packed = pack (group_values groups) bits;
  scales = map (λ g. g.scale) groups;
  zero_points = map (λ g. g.zero_point) groups;
  num_elements = n;
  bits = bits;
}

-- For no values the loops give the empty tensor of the early return.
unfoldable pub quantize : QuantFloats → List ℕ → QuantBits → Run QuantizedTensor
unfolding quantize_group pack
quantize f values bits = quantize_groups f (length values) bits values >>= λ groups.
    returned (tensor_of bits (length values) groups)

abbrev pub head_or : List ℕ → ℕ → ℕ
head_or [] d = d
head_or (x ∷ xs) d = x

unfoldable pub dequantize_group : QuantFloats → ℕ → ℕ → List ℕ → List ℕ
dequantize_group f scale zero_point group =
    if f32_eq scale 0
    then replicate (length group) zero_point
    else map (λ q. f.mul (f.of_i32 (sub_i32 q zero_point)) scale) group

-- The scales and the zero points stand at the group; a missing one is 1.0, and zero.
abbrev pub dequantize_groups : QuantFloats → ℕ → List ℕ → List ℕ → List ℕ → List ℕ
dequantize_groups f zero scales zero_points qs = []
dequantize_groups f (suc fuel) scales zero_points [] = []
dequantize_groups f (suc fuel) scales zero_points (q ∷ qs) =
    dequantize_group f (head_or scales one) (head_or zero_points 0) (take group_size (q ∷ qs))
    ++ dequantize_groups f fuel (drop 1 scales) (drop 1 zero_points) (drop group_size (q ∷ qs))

unfoldable pub dequantize : QuantFloats → QuantizedTensor → List ℕ
unfolding unpack dequantize_group
dequantize f t =
    let qs = unpack t.packed t.bits t.num_elements in
    dequantize_groups f (length qs) t.scales t.zero_points qs

-- Bits of `f32`.
pub record QuantizationError : Type 0 where
  pub max_abs_error : ℕ
  pub mean_abs_error : ℕ
  pub relative_rmse : ℕ

-- What the measurement asks of `f32` and `f64`.
pub record MeasureFloats : Type 0 where
  pub sub : ℕ → ℕ → ℕ
  pub abs : ℕ → ℕ
  pub to_f64 : ℕ → ℕ
  pub of_f64 : ℕ → ℕ
  pub add_f64 : ℕ → ℕ → ℕ
  pub mul_f64 : ℕ → ℕ → ℕ
  pub div_f64 : ℕ → ℕ → ℕ
  pub sqrt_f64 : ℕ → ℕ
  pub positive_f64 : ℕ → Bool
  pub usize_to_f64 : ℕ → ℕ

-- The greatest error, the sum of the errors, of their squares, and of the squares of the originals.
pub record Sums : Type 0 where
  pub max_abs : ℕ
  pub sum_abs : ℕ
  pub sum_sq_err : ℕ
  pub sum_sq_orig : ℕ

abbrev pub measure_pair : MeasureFloats → Sums → ℕ → ℕ → Sums
measure_pair f s o r =
    let err = f.abs (f.sub o r) in
    let wide = f.to_f64 err in
    record {
      max_abs = f32_max s.max_abs err;
      sum_abs = f.add_f64 s.sum_abs wide;
      sum_sq_err = f.add_f64 s.sum_sq_err (f.mul_f64 wide wide);
      sum_sq_orig = f.add_f64 s.sum_sq_orig (f.mul_f64 (f.to_f64 o) (f.to_f64 o));
    }

abbrev pub measure_from : MeasureFloats → Sums → List ℕ → List ℕ → Sums
measure_from f s [] rs = s
measure_from f s (o ∷ os) [] = s
measure_from f s (o ∷ os) (r ∷ rs) = measure_from f (measure_pair f s o r) os rs

abbrev pub error_of : MeasureFloats → ℕ → Sums → QuantizationError
error_of f n s =
    let rmse = f.sqrt_f64 (f.div_f64 s.sum_sq_err n) in
    let rms_orig = f.sqrt_f64 (f.div_f64 s.sum_sq_orig n) in
    record {
      max_abs_error = s.max_abs;
      mean_abs_error = f.of_f64 (f.div_f64 s.sum_abs n);
      relative_rmse = if f.positive_f64 rms_orig then f.of_f64 (f.div_f64 rmse rms_orig) else 0;
    }

unfoldable pub measure_error : MeasureFloats → List ℕ → List ℕ → QuantizationError
measure_error f original reconstructed =
    if length original == 0 || not (length original == length reconstructed)
    then record { max_abs_error = 0; mean_abs_error = 0; relative_rmse = 0 }
    else error_of f (f.usize_to_f64 (length original)) (
        measure_from f (record { max_abs = 0; sum_abs = 0; sum_sq_err = 0; sum_sq_orig = 0 })
          original reconstructed)

-- The bytes of the values as `f32` over the bytes of the tensor, as an `f64`.
unfoldable pub compression_ratio : MeasureFloats → QuantizedTensor → ℕ
unfolding size_in_bytes
compression_ratio f t =
    if size_in_bytes t == 0
    then 0
    else f.div_f64 (f.usize_to_f64 (t.num_elements * 4)) (f.usize_to_f64 (size_in_bytes t))
