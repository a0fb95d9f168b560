-- ===== src/Base/Errors.antt =====
-- The error codes that the module returns, and the C convention of an `int` that is a value or a
-- negated error code.
use mathlib.Core.Path.{◌≡◌, refl}
use mathlib.Core.Logic.{◌⊎◌, inl, inr}

pub data Errno : Type 0 where
  eperm enoent eio enomem efault ebusy einval enotty erestartsys : Errno

pub data Ret {ℓ} (A : Type ℓ) : Type ℓ where
  ok : A → Ret A
  err : Errno → Ret A

pub Ret-cases {ℓ} : {A : Type ℓ} (r : Ret A) → ((a : A) × (r ≡ ok a)) ⊎ ((e : Errno) × (r ≡ err e))
Ret-cases (ok a) = inl (a, refl)
Ret-cases (err e) = inr (e, refl)
