-- ===== src/Prelude/Slices.antt =====
-- Consecutive elements of a list, read and written in place.
use Prim.Native.Nat.{ℕ, zero, suc, ◌+◌, ◌≤◌}
use mathlib.Core.Path.{◌≡◌, refl, ap}
use mathlib.Core.List.{List, [], ◌∷◌}
use native.Mathlib.Omega.{arith}
use orion_serve_rs.Prelude.Lists.{length, take, drop, length-take, length-drop}

module _ {ℓ} {A : Type ℓ} where
  abbrev pub cut : List A → ℕ → ℕ → List A
  cut xs off n = take n (drop off xs)

  -- Past the end of the list, nothing is written.
  abbrev pub overwrite : List A → ℕ → List A → List A
  overwrite [] off vs = []
  overwrite (x ∷ xs) zero [] = x ∷ xs
  overwrite (x ∷ xs) zero (v ∷ vs) = v ∷ overwrite xs zero vs
  overwrite (x ∷ xs) (suc off) vs = x ∷ overwrite xs off vs

  abbrev pub replicate : ℕ → A → List A
  replicate zero a = []
  replicate (suc n) a = a ∷ replicate n a

  pub length-replicate : (n : ℕ) (a : A) → length (replicate n a) ≡ n
  length-replicate zero a = refl
  length-replicate (suc n) a = ap suc (length-replicate n a)

  pub length-overwrite :
      (xs : List A) (off : ℕ) (vs : List A) → length (overwrite xs off vs) ≡ length xs
  length-overwrite [] off vs = refl
  length-overwrite (x ∷ xs) zero [] = refl
  length-overwrite (x ∷ xs) zero (v ∷ vs) = ap suc (length-overwrite xs zero vs)
  length-overwrite (x ∷ xs) (suc off) vs = ap suc (length-overwrite xs off vs)

  pub length-cut : (xs : List A) (off n : ℕ) → off + n ≤ length xs → length (cut xs off n) ≡ n
  length-cut xs off n h = omega (arith, length-take n (drop off xs), length-drop off xs)

  pub cut-overwrite_self :
      (xs : List A) (off : ℕ) (vs : List A)
      → off + length vs ≤ length xs
      → cut (overwrite xs off vs) off (length vs) ≡ vs
  cut-overwrite_self xs zero [] h = refl
  cut-overwrite_self [] zero (v ∷ vs) h = absurd (omega arith)
  cut-overwrite_self (x ∷ xs) zero (v ∷ vs) h =
      ap (◌∷◌ v) (cut-overwrite_self xs zero vs (omega arith))
  cut-overwrite_self [] (suc off) vs h = absurd (omega arith)
  cut-overwrite_self (x ∷ xs) (suc off) vs h = cut-overwrite_self xs off vs (omega arith)

  -- A read that ends before the write starts.
  pub cut-overwrite_before :
      (xs : List A) (off : ℕ) (vs : List A) (from n : ℕ)
      → from + n ≤ off
      → cut (overwrite xs off vs) from n ≡ cut xs from n
  cut-overwrite_before [] off vs from n h = refl
  cut-overwrite_before (x ∷ xs) zero vs zero zero h = refl
  cut-overwrite_before (x ∷ xs) zero vs zero (suc n) h = absurd (omega arith)
  cut-overwrite_before (x ∷ xs) zero vs (suc from) n h = absurd (omega arith)
  cut-overwrite_before (x ∷ xs) (suc off) vs zero zero h = refl
  cut-overwrite_before (x ∷ xs) (suc off) vs zero (suc n) h =
      ap (◌∷◌ x) (cut-overwrite_before xs off vs zero n (omega arith))
  cut-overwrite_before (x ∷ xs) (suc off) vs (suc from) n h =
      cut-overwrite_before xs off vs from n (omega arith)

  -- A read that starts after the write ends.
  pub cut-overwrite_after :
      (xs : List A) (off : ℕ) (vs : List A) (from n : ℕ)
      → off + length vs ≤ from
      → cut (overwrite xs off vs) from n ≡ cut xs from n
  cut-overwrite_after [] off vs from n h = refl
  cut-overwrite_after (x ∷ xs) zero [] from n h = refl
  cut-overwrite_after (x ∷ xs) zero (v ∷ vs) zero n h = absurd (omega arith)
  cut-overwrite_after (x ∷ xs) zero (v ∷ vs) (suc from) n h =
      cut-overwrite_after xs zero vs from n (omega arith)
  cut-overwrite_after (x ∷ xs) (suc off) vs zero n h = absurd (omega arith)
  cut-overwrite_after (x ∷ xs) (suc off) vs (suc from) n h =
      cut-overwrite_after xs off vs from n (omega arith)
