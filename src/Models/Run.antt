-- ===== src/Models/Run.antt =====
-- How a call of crates/orion-models ends: with a value, with an error, or with the panic of a slice
-- out of range or of `expect`; and the slices of `f32` values that the crate takes.
use orion_serve_rs.Prelude.{
  ℕ, ◌+◌, ◌-◌, ◌≤◌, ◌≡◌, Bool, true, false, not, ◌==◌, Option, none, some, List, if◌then◌else◌,
  arith, ltb, length, cut, overwrite,
}
use orion_serve_rs.Core.Error.{EngineError}

pub data Run {ℓ} (A : Type ℓ) : Type ℓ where
  returned : A → Run A
  failed : EngineError → Run A
  panic : Run A

infixl 5 ◌>>=◌ ◌>>◌
abbrev pub ◌>>=◌ {ℓ κ} : {A : Type ℓ} {B : Type κ} → Run A → (A → Run B) → Run B
returned a >>= f = f a
failed e >>= f = failed e
panic >>= f = panic

abbrev pub ◌>>◌ {ℓ κ} : {A : Type ℓ} {B : Type κ} → Run A → Run B → Run B
m >> k = m >>= λ _. k

abbrev pub ok_or {ℓ} : {A : Type ℓ} → Option A → EngineError → Run A
ok_or none e = failed e
ok_or (some a) e = returned a

abbrev pub expect {ℓ} : {A : Type ℓ} → Option A → Run A
expect none = panic
expect (some a) = returned a

-- `&xs[start..end]`
abbrev pub slice : List ℕ → ℕ → ℕ → Run (List ℕ)
slice xs start end =
    if ltb end start
    then panic
    else (if ltb (length xs) end then panic else returned (cut xs start (end - start)))

-- `xs[start..start + values.len()].copy_from_slice(values)`
abbrev pub copy_from_slice : List ℕ → ℕ → List ℕ → Run (List ℕ)
copy_from_slice xs start values =
    if ltb (length xs) (start + length values) then panic else returned (overwrite xs start values)

-- The call gives a value, and one for which `Good` holds.
pub data Returns {ℓ κ} {A : Type ℓ} (Good : A → Type κ) : Run A → Type (ℓ ⊔ κ) where
  returns : {value : A} → Good value → Returns Good (returned value)

-- What follows a call has to be shown for the good values of the call.
pub Returns-bind {ℓ κ ℓ' κ'} :
    {A : Type ℓ} {C : Type ℓ'} {Good : A → Type κ} {Best : C → Type κ'} {call : Run A}
    {next : A → Run C}
    → Returns Good call
    → ((value : A) → Good value → Returns Best (next value))
    → Returns Best (call >>= next)
Returns-bind (returns {value = value} good) after = after value good

pub slice_inside :
    (xs : List ℕ) (start n : ℕ)
    → start + n ≤ length xs
    → slice xs start (start + n) ≡ returned (cut xs start n)
slice_inside xs start n h = ground (arith, same)
  where
    same : (start + n) - start ≡ n
    same = omega arith

pub copy_from_slice_inside :
    (xs : List ℕ) (start : ℕ) (vs : List ℕ)
    → start + length vs ≤ length xs
    → copy_from_slice xs start vs ≡ returned (overwrite xs start vs)
copy_from_slice_inside xs start vs h = ground arith

-- A guard that does not stop the run.
pub Returns-pass {ℓ κ} :
    {A : Type ℓ} {P : A → Type κ} (b : Bool) (x : Run A) {y : Run A}
    → b ≡ false
    → Returns P y
    → Returns P (if b then x else y)
Returns-pass true x e r = cc
Returns-pass false x e r = r

abbrev pub is_zero : ℕ → Bool
is_zero n = n == 0

pub agrees : {a b : ℕ} → a ≡ b → not (a == b) ≡ false
agrees e = ground arith

-- A value that `expect` would find is found by `ok_or`.
pub Returns-ok_or {ℓ κ ℓ' κ'} :
    {A : Type ℓ} {B : Type ℓ'} {P : A → Type κ} {Q : B → Type κ'} (r : Run (Option A))
    (e : EngineError) (k : A → Run B)
    → Returns P (r >>= expect)
    → ((a : A) → P a → Returns Q (k a))
    → Returns Q (r >>= λ found. ok_or found e >>= k)
Returns-ok_or (returned (some a)) e k (returns p) next = next a p
Returns-ok_or (returned none) e k h next = elim h [ ]
Returns-ok_or (failed why) e k h next = elim h [ ]
Returns-ok_or panic e k h next = elim h [ ]

pub Returns-weaken {ℓ κ κ'} :
    {A : Type ℓ} {Good : A → Type κ} {Fine : A → Type κ'} {call : Run A}
    → ((value : A) → Good value → Fine value)
    → Returns Good call
    → Returns Fine call
Returns-weaken enough (returns {value = value} good) = returns (enough value good)
