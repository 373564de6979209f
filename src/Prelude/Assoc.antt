-- ===== src/Prelude/Assoc.antt =====
-- A hash map keyed by numbers, as an association list in which each key stands once.
use Prim.Native.Nat.{ℕ, ◌+◌}
use mathlib.Core.Path.{◌≡◌, refl}
use mathlib.Core.List.{List, [], ◌∷◌}
use mathlib.Core.Option.{Option, none, some}
use native.Mathlib.Omega.{arith}
use orion_serve_rs.Prelude.Tests.{if◌then◌else◌, ◌==◌}

module _ {ℓ} {V : Type ℓ} where
  abbrev pub lookup : ℕ → List (ℕ × V) → Option V
  lookup k [] = none
  lookup k ((j, v) ∷ m) = if j == k then some v else lookup k m

  -- Replaces the value of a key that is there.
  abbrev pub insert : ℕ → V → List (ℕ × V) → List (ℕ × V)
  insert key new [] = (key, new) ∷ []
  insert key new (e ∷ m) = if e.0 == key then (key, new) ∷ m else e ∷ insert key new m

  -- Drops each entry of the key.
  abbrev pub remove : ℕ → List (ℕ × V) → List (ℕ × V)
  remove k [] = []
  remove k ((j, w) ∷ m) = if j == k then remove k m else (j, w) ∷ remove k m

  pub lookup-insert :
      (k j : ℕ) (v : V) (m : List (ℕ × V))
      → lookup j (insert k v m) ≡ (if k == j then some v else lookup j m)
  lookup-insert k j v [] = refl
  lookup-insert k j v ((i, w) ∷ m) = ground (arith, lookup-insert k j v m)

  pub lookup-remove :
      (k j : ℕ) (m : List (ℕ × V)) → lookup j (remove k m) ≡ (if k == j then none else lookup j m)
  lookup-remove k j [] = ground arith
  lookup-remove k j ((i, w) ∷ m) = ground (arith, lookup-remove k j m)

  -- Each key stands once.
  abbrev pub Unique : List (ℕ × V) → Type ℓ
  Unique [] = Unit
  Unique ((j, w) ∷ m) = (lookup j m ≡ none) × Unique m

  pub remove_absent : (k : ℕ) (m : List (ℕ × V)) → lookup k m ≡ none → remove k m ≡ m
  remove_absent k [] e = refl
  remove_absent k ((i, w) ∷ m) e = ground (arith, remove_absent k m)

  pub insert-Unique : (k : ℕ) (v : V) (m : List (ℕ × V)) → Unique m → Unique (insert k v m)
  insert-Unique k v [] u = (refl, tt)
  insert-Unique k v ((i, w) ∷ m) u =
      ground (arith, u.0, u.1, insert-Unique k v m u.1, lookup-insert k i v m)

  pub remove-Unique : (k : ℕ) (m : List (ℕ × V)) → Unique m → Unique (remove k m)
  remove-Unique k [] u = tt
  remove-Unique k ((i, w) ∷ m) u =
      ground (arith, u.0, u.1, remove-Unique k m u.1, lookup-remove k i m)

  pub remove-insert_new :
      (k : ℕ) (v : V) (m : List (ℕ × V)) → lookup k m ≡ none → remove k (insert k v m) ≡ m
  remove-insert_new k v [] e = ground arith
  remove-insert_new k v ((i, w) ∷ m) e = ground (arith, remove-insert_new k v m)

  -- The sum of a weight over the values.
  abbrev pub total : (V → ℕ) → List (ℕ × V) → ℕ
  total f [] = 0
  total f ((j, w) ∷ m) = f w + total f m

  pub total-insert_new :
      (f : V → ℕ) (k : ℕ) (v : V) (m : List (ℕ × V))
      → lookup k m ≡ none
      → total f (insert k v m) ≡ f v + total f m
  total-insert_new f k v [] e = refl
  total-insert_new f k v ((i, w) ∷ m) e = ground (arith, total-insert_new f k v m)

  pub total-insert_old :
      (f : V → ℕ) (k : ℕ) (v w : V) (m : List (ℕ × V))
      → lookup k m ≡ some w
      → total f (insert k v m) + f w ≡ f v + total f m
  total-insert_old f k v w [] e = absurd (ground arith)
  total-insert_old f k v w ((i, x) ∷ m) e = ground (arith, total-insert_old f k v w m)

  pub total-remove :
      (f : V → ℕ) (k : ℕ) (w : V) (m : List (ℕ × V))
      → Unique m
      → lookup k m ≡ some w
      → f w + total f (remove k m) ≡ total f m
  total-remove f k w [] u e = absurd (ground arith)
  total-remove f k w ((i, x) ∷ m) u e =
      ground (arith, u.0, u.1, total-remove f k w m u.1, remove_absent k m)
