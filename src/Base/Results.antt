-- ===== src/Base/Results.antt =====
-- How the calls of Go functions end: some give a value or nothing, some return or panic.
use mathlib.Core.Option.{Option, none, some}

-- The call returns, or it panics (a nil pointer, an index out of range).
pub data Outcome {ℓ} (A : Type ℓ) : Type ℓ where
  returned : A → Outcome A
  panicked : Outcome A

infixl 5 ◌>>=◌
abbrev pub ◌>>=◌ {ℓ κ} : {A : Type ℓ} {B : Type κ} → Option A → (A → Option B) → Option B
none >>= f = none
some a >>= f = f a
