-- ===== src/Models/Loaded.antt =====
-- How loading a model ends (crates/orion-models/src/loader.rs, config.rs and transformer.rs): with a
-- value or with an error.
use Prim.Native.String.{String}
use text.Mathlib.Text.{◌==◌}
use orion_serve_rs.Prelude.{
  ◌≡◌, ◌≢◌, refl, subst, Bool, true, false, Option, none, some, List, [], ◌∷◌, if◌then◌else◌,
  if_elim,
}
use orion_serve_rs.Core.Error.{ModelError}

pub data Loaded {ℓ} (A : Type ℓ) : Type ℓ where
  loaded : A → Loaded A
  refused : ModelError → Loaded A

infixl 5 ◌>>=◌
abbrev pub ◌>>=◌ {ℓ κ} : {A : Type ℓ} {B : Type κ} → Loaded A → (A → Loaded B) → Loaded B
loaded a >>= f = f a
refused e >>= f = refused e

abbrev pub found_or {ℓ} : {A : Type ℓ} → Option A → ModelError → Loaded A
found_or none e = refused e
found_or (some a) e = loaded a

pub loaded_injective {ℓ} : {A : Type ℓ} {a b : A} → loaded a ≡ loaded b → a ≡ b
loaded_injective e = cc

pub refused-ne-loaded {ℓ} : {A : Type ℓ} {a : A} {e : ModelError} → refused e ≢ loaded a
refused-ne-loaded e = cc

-- The value, if there is one, is such that `Good` holds.
pub data Gives {ℓ κ} {A : Type ℓ} (Good : A → Type κ) : Loaded A → Type (ℓ ⊔ κ) where
  gives : {value : A} → Good value → Gives Good (loaded value)
  nothing : {e : ModelError} → Gives Good (refused e)

pub Gives-bind {ℓ κ ℓ' κ'} :
    {A : Type ℓ} {C : Type ℓ'} {Good : A → Type κ} {Best : C → Type κ'} {call : Loaded A}
    {next : A → Loaded C}
    → Gives Good call
    → ((value : A) → Good value → Gives Best (next value))
    → Gives Best (call >>= next)
Gives-bind (gives {value = value} good) after = after value good
Gives-bind nothing after = nothing

pub Gives-when {ℓ κ} :
    {A : Type ℓ} {Good : A → Type κ} (call : Loaded A)
    → ((value : A) → call ≡ loaded value → Good value)
    → Gives Good call
Gives-when (loaded value) known = gives (known value refl)
Gives-when (refused e) known = nothing

value_good {ℓ κ} :
    {A : Type ℓ} {Good : A → Type κ} {call : Loaded A}
    → Gives Good call
    → (value : A) → call ≡ loaded value
    → Good value
value_good {Good = Good} (gives good) value e = subst Good (loaded_injective e) good
value_good nothing value e = cc

pub Gives-of {ℓ κ} :
    {A : Type ℓ} {Good : A → Type κ} {call : Loaded A} {value : A}
    → Gives Good call
    → call ≡ loaded value
    → Good value
Gives-of {value = value} given e = value_good given value e

-- A test before a call.
pub Gives-if {ℓ κ} :
    {A : Type ℓ} {Good : A → Type κ} (test : Bool) {here there : Loaded A}
    → (test ≡ true → Gives Good here)
    → (test ≡ false → Gives Good there)
    → Gives Good (if test then here else there)
Gives-if {Good = Good} test yes_case no_case = if_elim (Gives Good) test yes_case no_case

-- A step of which nothing is used.
pub Gives-after {ℓ ℓ' κ'} :
    {A : Type ℓ} {B : Type ℓ'} {Q : B → Type κ'} (r : Loaded A) {f : A → Loaded B}
    → ((a : A) → Gives Q (f a))
    → Gives Q (r >>= f)
Gives-after (loaded a) k = k a
Gives-after (refused e) k = nothing

-- Whether a name is one of these.
abbrev pub one_of : String → List String → Bool
one_of s [] = false
one_of s (n ∷ ns) = if s == n then true else one_of s ns
