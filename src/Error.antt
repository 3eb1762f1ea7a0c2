-- ===== src/Error.antt =====
-- crates/shacl/src/error.rs: the engine's errors, without their messages, and what a call that may
-- fail gives back. A panic is an outcome of its own.
use mathlib.Core.Option.{Option, none, some}

pub data Error : Type 0 where
  io parse shape sparql inference recursion : Error

-- An error comes first: it ends a chain, and a panic ends it too.
pub data Result {ℓ} (T : Type ℓ) : Type ℓ where
  err : Error → Result T
  panic : Result T
  ok : T → Result T

-- `?`
infixl 5 ◌>>=◌
abbrev pub ◌>>=◌ {ℓ κ} : {S : Type ℓ} {T : Type κ} → Result S → (S → Result T) → Result T
panic >>= next = panic
err reason >>= next = err reason
ok value >>= next = next value

-- A step that panics where it has no value.
abbrev pub or_panic {ℓ} : {S : Type ℓ} → Option S → Result S
or_panic none = panic
or_panic (some value) = ok value

-- What a computation gives that may also meet the bound of a loop of the model.
abbrev pub Bounded {ℓ} : Type ℓ → Type ℓ
Bounded A = Option (Result A)
