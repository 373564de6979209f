-- ===== src/Core/Float32.antt =====
-- An `f32` as its 32 bits: the tests and comparisons of IEEE 754 that the configuration and the
-- sampling parameters (crates/orion-core) and the sampler (crates/orion-runtime) make.
use orion_serve_rs.Prelude.{ℕ, ◌+◌, ◌-◌, ◌/◌, ◌%◌, Bool, not, ◌&&◌, if◌then◌else◌, ◌==◌, ltb, leb}

-- The weight of the sign bit, and of the exponent's lowest bit.
abbrev pub sign_bit : ℕ
sign_bit = 2147483648

abbrev pub exponent_bit : ℕ
exponent_bit = 8388608

abbrev pub one : ℕ
one = 1065353216

abbrev pub neg_infinity : ℕ
neg_infinity = 4286578688

-- The bits below the sign.
abbrev pub magnitude : ℕ → ℕ
magnitude x = x % sign_bit

-- The exponent is all ones for infinities and for what is not a number.
abbrev pub is_finite : ℕ → Bool
is_finite x = ltb (magnitude x / exponent_bit) 255

abbrev pub is_nan : ℕ → Bool
is_nan x = ltb 2139095040 (magnitude x)

-- Numbers in the order of their values; both zeros have the same place.
abbrev pub place : ℕ → ℕ
place x = if leb sign_bit x then sign_bit - magnitude x else sign_bit + magnitude x

abbrev pub f32_lt : ℕ → ℕ → Bool
f32_lt x y = not (is_nan x) && not (is_nan y) && ltb (place x) (place y)

abbrev pub f32_le : ℕ → ℕ → Bool
f32_le x y = not (is_nan x) && not (is_nan y) && leb (place x) (place y)

abbrev pub f32_eq : ℕ → ℕ → Bool
f32_eq x y = not (is_nan x) && not (is_nan y) && (place x == place y)
