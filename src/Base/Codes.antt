-- ===== src/Base/Codes.antt =====
-- The kernel's error codes that the driver returns, each a negative `int` in the source, and
-- the results of functions that return a value or an `ERR_PTR`.
use mathlib.Core.Bool.{Bool, true, false}

pub data Errno : Type 0 where
  einval enoent enomem eexist erange etime enospc enobufs enodata : Errno
  eopnotsupp eafnosupport eprotonosupport enotsock enotsupp ebusy ealready eperm : Errno
  ehostunreach emsgsize enodev eagain : Errno

pub data Result {ℓ} (A : Type ℓ) : Type ℓ where
  ok : A → Result A
  err : Errno → Result A

-- the early return: what follows runs on a success
infixl 5 ◌>>=◌
abbrev pub ◌>>=◌ {ℓ κ} : {A : Type ℓ} {B : Type κ} → Result A → (A → Result B) → Result B
err e >>= next = err e
ok a >>= next = next a

infixl 5 ◌>>◌
abbrev pub ◌>>◌ {ℓ} : {B : Type ℓ} → Result (Unit {0}) → Result B → Result B
status >> next = status >>= (λ _. next)

-- What a function of type `int` returns that has no value to give.
abbrev pub Status : Type 0
Status = Result (Unit {0})

abbrev pub is_ok : Status → Bool
is_ok (ok _) = true
is_ok (err _) = false
