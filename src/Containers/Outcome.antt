-- ===== src/Containers/Outcome.antt =====
-- How a member function of the containers can end: with a value, with `exit(1)`, or with an access
-- that C++ leaves undefined (through a null pointer, or outside the buffer). `diverged` is a loop
-- that outruns the fuel of its model, and `bad_alloc` the exception of a failed allocation.
use linux_multiarch_asm.Base.{Option, none, some}

pub data Outcome {ℓ} (A : Type ℓ) : Type ℓ where
  ret : A → Outcome A
  exited : Outcome A
  undefined : Outcome A
  diverged : Outcome A
  bad_alloc : Outcome A

infixl 5 ◌>>=◌
abbrev pub ◌>>=◌ {ℓ κ} : {A : Type ℓ} {B : Type κ} → Outcome A → (A → Outcome B) → Outcome B
ret a >>= f = f a
exited >>= f = exited
undefined >>= f = undefined
diverged >>= f = diverged
bad_alloc >>= f = bad_alloc

-- A read of a buffer cell.
abbrev pub read {ℓ} : {A : Type ℓ} → Option A → Outcome A
read none = undefined
read (some a) = ret a
