-- ===== src/Prelude/Outcome.antt =====
-- What a Rust call can end in: a value, an error that is returned, or a panic.
use mathlib.Core.Option.{Option, none, some}

pub data Outcome {ℓ κ} (E : Type ℓ) (A : Type κ) : Type (ℓ ⊔ κ) where
  ok : A → Outcome E A
  err : E → Outcome E A
  panic : Outcome E A

module _ {ℓ κ μ} {E : Type ℓ} {V : Type κ} {W : Type μ} where
  infixl 5 ◌>>=◌ ◌>>◌
  -- A panic and an error end the call that they happen in.
  abbrev pub ◌>>=◌ : Outcome E V → (V → Outcome E W) → Outcome E W
  panic >>= next = panic
  err e >>= next = err e
  ok v >>= next = next v

  abbrev pub ◌>>◌ : Outcome E V → Outcome E W → Outcome E W
  first >> second = first >>= λ _. second

module _ {ℓ κ} {E : Type ℓ} {A : Type κ} where
  -- `o.ok_or(e)?`
  abbrev pub ok_or : Option A → E → Outcome E A
  ok_or none e = err e
  ok_or (some a) e = ok a

  -- `o.unwrap()`, and an index out of range
  abbrev pub unwrap : Option A → Outcome E A
  unwrap none = panic
  unwrap (some a) = ok a
