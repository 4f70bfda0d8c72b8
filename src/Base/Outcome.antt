-- ===== src/Base/Outcome.antt =====
-- How a run of C++ code ends: normally, in `panic` (which does not return), or in behaviour that
-- the language leaves undefined.
use mathlib.Core.Path.{◌≡◌}
use mathlib.Core.Bool.{Bool, true, false}

pub data Run {ℓ} (A : Type ℓ) : Type ℓ where
  returns : A → Run A
  panic : Run A
  undefined : Run A

infixl 5 ◌>>=◌ ◌>>◌
abbrev pub ◌>>=◌ {ℓ κ} : {A : Type ℓ} {B : Type κ} → Run A → (A → Run B) → Run B
returns a >>= f = f a
panic >>= f = panic
undefined >>= f = undefined

abbrev pub ◌>>◌ {ℓ} : {B : Type ℓ} → Run (Unit {0}) → Run B → Run B
m >> k = m >>= λ _. k

-- `if (test) panic(…);`
abbrev pub panic_if : Bool → Run (Unit {0})
panic_if true = panic
panic_if false = returns tt

-- An operation whose precondition in the language is that `test` is false.
abbrev pub undefined_if : Bool → Run (Unit {0})
undefined_if true = undefined
undefined_if false = returns tt

-- The run ends normally, in a value that satisfies `P`.
abbrev pub Returns {ℓ κ} : {A : Type ℓ} → Run A → (A → Type κ) → Type (ℓ ⊔ κ)
Returns {A} r P = (a : A) × (r ≡ returns a) × P a
