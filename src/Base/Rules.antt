-- ===== src/Base/Rules.antt =====
-- Rules for the branches of a program: a property of each branch is a property of the whole.
use mathlib.Core.Path.{◌≡◌, refl}
use mathlib.Core.Option.{Option, none, some}
use mathlib.Core.Bool.{Bool, true, false}
use scoutfs_kmod_dev.Base.Tests.{if◌then◌else◌}
use scoutfs_kmod_dev.Base.Returns.{Ret, Errno, ok, err}

module _ {ℓ κ} {A : Type ℓ} (P : A → Type κ) where
  pub if_rule : (c : Bool) (x y : A) → (c ≡ true → P x) → (c ≡ false → P y) → P (if c then x else y)
  if_rule true x y yes_case no_case = yes_case refl
  if_rule false x y yes_case no_case = no_case refl

  pub bool_rule :
      (c : Bool) (x y : A)
      → (c ≡ true → P x)
      → (c ≡ false → P y)
      → P (elim c [ true ↦ x | false ↦ y ])
  bool_rule true x y yes_case no_case = yes_case refl
  bool_rule false x y yes_case no_case = no_case refl

  pub ret_rule :
      (r : Ret) (failed : Errno → A) (x : A)
      → ((e : Errno) → r ≡ err e → P (failed e))
      → (r ≡ ok → P x)
      → P (elim r [ err e ↦ failed e | ok ↦ x ])
  ret_rule ok failed x at_err at_ok = at_ok refl
  ret_rule (err e) failed x at_err at_ok = at_err e refl

  pub option_rule {μ} :
      {B : Type μ} (o : Option B) (x : A) (f : B → A)
      → (o ≡ none → P x)
      → ((b : B) → o ≡ some b → P (f b))
      → P (elim o [ none ↦ x | some b ↦ f b ])
  option_rule none x f at_none at_some = at_none refl
  option_rule (some b) x f at_none at_some = at_some b refl
