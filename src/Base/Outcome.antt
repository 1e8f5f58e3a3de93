-- ===== src/Base/Outcome.antt =====
-- What a Go function with an error result does: it returns a value, returns an error, or panics.
use mathlib.Core.Option.{Option, none, some}

pub data Outcome {ℓ κ} (E : Type ℓ) (A : Type κ) : Type (ℓ ⊔ κ) where
  ok : A → Outcome E A
  err : E → Outcome E A
  panic : Outcome E A

infixl 5 ◌>>=◌
abbrev pub ◌>>=◌ {ℓ κ μ} :
    {E : Type ℓ} {A : Type κ} {B : Type μ} → Outcome E A → (A → Outcome E B) → Outcome E B
ok a >>= f = f a
err e >>= f = err e
panic >>= f = panic

-- `v, ok := …; if !ok { return err }`
abbrev pub or_err {ℓ κ} : {E : Type ℓ} {A : Type κ} → Option A → E → Outcome E A
or_err none e = err e
or_err (some a) e = ok a
