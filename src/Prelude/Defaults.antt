-- ===== src/Prelude/Defaults.antt =====
-- A value that may be stated, and the default for where it is not.
use mathlib.Core.Path.{◌≡◌, refl}
use mathlib.Core.Option.{Option, none, some}

abbrev pub unwrap_or {ℓ} : {A : Type ℓ} → Option A → A → A
unwrap_or none d = d
unwrap_or (some a) d = a

-- The value is the one stated, or the default where none is.
pub data OrElse {ℓ} {A : Type ℓ} (default : A) : Option A → A → Type ℓ where
  stated : (a : A) → OrElse default (some a) a
  unstated : OrElse default none default

pub OrElse-of {ℓ} :
    {A : Type ℓ} (default : A) (o : Option A) → OrElse default o (unwrap_or o default)
OrElse-of default none = unstated
OrElse-of default (some a) = stated a

pub unwrap_or-OrElse {ℓ} :
    {A : Type ℓ} {default : A} {o : Option A} {a : A} → OrElse default o a → unwrap_or o default ≡ a
unwrap_or-OrElse (stated a) = refl
unwrap_or-OrElse unstated = refl
