-- ===== src/Base/Returns.antt =====
-- What a kernel function that returns `int` hands back: 0 or a negative errno.
use Prim.Native.Nat.{ℕ}
use mathlib.Core.Bool.{Bool, true, false}
use mathlib.Core.Path.{◌≡◌, refl}
use mathlib.Core.Logic.{◌⊎◌, inl, inr}
use mathlib.Core.Option.{Option, none, some}

-- `other` stands for every error that no branch of the modelled code names.
pub data Errno : Type 0 where
  enoent einval enomem eio eexist : Errno
  other : ℕ → Errno

pub data Ret : Type 0 where
  ok : Ret
  err : Errno → Ret

-- A BUG_ON that fires stops the machine.
pub data Kernel {ℓ} (A : Type ℓ) : Type ℓ where
  bug : Kernel A
  done : A → Kernel A

infixl 5 ◌>>=◌
abbrev pub ◌>>=◌ {ℓ κ} : {A : Type ℓ} {B : Type κ} → Kernel A → (A → Kernel B) → Kernel B
bug >>= f = bug
done a >>= f = f a

-- `ret < 0 && ret != -ENOENT`, with the error
abbrev pub hard_error : Ret → Option Errno
hard_error ok = none
hard_error (err enoent) = none
hard_error (err e) = some e

abbrev pub is_ok : Ret → Bool
is_ok ok = true
is_ok (err _) = false

pub Ret-cases : (r : Ret) → (r ≡ ok) ⊎ ((e : Errno) × (r ≡ err e))
Ret-cases ok = inl refl
Ret-cases (err e) = inr (e, refl)

-- A result is 0, -ENOENT or an error that ends the caller.
pub hard_error-cases :
    (r : Ret) → (r ≡ ok) ⊎ (r ≡ err enoent) ⊎ ((e : Errno) × (hard_error r ≡ some e) × (r ≡ err e))
hard_error-cases ok = inl refl
hard_error-cases (err enoent) = inr (inl refl)
hard_error-cases (err einval) = inr (inr (einval, refl, refl))
hard_error-cases (err enomem) = inr (inr (enomem, refl, refl))
hard_error-cases (err eio) = inr (inr (eio, refl, refl))
hard_error-cases (err eexist) = inr (inr (eexist, refl, refl))
hard_error-cases (err (other n)) = inr (inr (other n, refl, refl))
