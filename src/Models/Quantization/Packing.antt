-- ===== src/Models/Quantization/Packing.antt =====
-- The packing of quantized values into bytes (crates/orion-models/src/quantization.rs, `pack` and
-- `unpack`).
use orion_serve_rs.Prelude.{
  ℕ, ◌+◌, ◌*◌, ◌/◌, ◌%◌, ◌≤◌, ◌≡◌, refl, ap, List, [], ◌∷◌, arith, length, take, map, All,
  if◌then◌else◌, leb, ltb, true, false,
}
use orion_serve_rs.Models.Quantization.{
  QuantBits, int8, int4, max_value, as_u8, pack_pairs, unpack_pairs, pack, unpack,
}

small_bytes : (xs : List ℕ) → All (λ x. x ≤ 255) xs → take (length xs) (map as_u8 xs) ≡ xs
small_bytes [] h = refl
small_bytes (x ∷ xs) h =
    let same : as_u8 x ≡ x = omega (arith, h.0) in rw (same, small_bytes xs h.1) refl

-- The loop is left once enough values are out.
more_or_done :
    (xs more : List ℕ) (count have : ℕ)
    → have + length xs ≡ count
    → more ≡ xs
    → (if leb count have then [] else more) ≡ xs
more_or_done [] more count have e h = ground (arith, h)
more_or_done (x ∷ xs) more count have e h =
    let going : leb count have ≡ false = ground (arith, e) in rw going h

unpack-pack_pairs :
    (xs : List ℕ) (have count : ℕ)
    → have + length xs ≡ count
    → All (λ x. x ≤ 15) xs
    → unpack_pairs (pack_pairs xs) have count ≡ xs
unpack-pack_pairs [] have count e h = refl
unpack-pack_pairs (x ∷ []) have count e h =
    let low : as_u8 x % 16 % 16 ≡ x = omega (arith, h.0) in
    let last : ltb (have + 1) count ≡ false = ground (arith, e) in rw (last, low) refl
unpack-pack_pairs (x ∷ y ∷ xs) have count e (hx, (hy, h)) =
    let lo : (as_u8 x % 16 + as_u8 y % 16 * 16) % 16 ≡ x = omega (arith, hx) in
    let hi : (as_u8 x % 16 + as_u8 y % 16 * 16) / 16 ≡ y = omega (arith, hx, hy) in
    let more : ltb (have + 1) count ≡ true = ground (arith, e) in
    rw (more, lo, hi)
      (ap (λ r. x ∷ y ∷ r)
        (more_or_done xs _ count (have + 2) (omega (arith, e))
          (unpack-pack_pairs xs (have + 2) count (omega (arith, e)) h)))

-- Values within the range of the width come back from the bytes they are packed into, in order: at
-- eight bits, and at four bits with two values to a byte, also where their number is odd.
pub unpack-pack :
    (xs : List ℕ) (bits : QuantBits)
    → All (λ x. x ≤ max_value bits) xs
    → unpack (pack xs bits) bits (length xs) ≡ xs
unfolding pack unpack
unpack-pack xs int8 h = small_bytes xs h
unpack-pack xs int4 h = unpack-pack_pairs xs 0 (length xs) (omega arith) h
