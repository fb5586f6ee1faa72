-- ===== src/Ext/Collected.antt =====
-- Changes that are collected one at a time and then applied.
use mathlib.Core.Bool.{false≢true, Bool}
use scoutfs_kmod_dev.Base.Lists.{length, length-append}
use scoutfs_kmod_dev.Ext.Pieces.{with_piece, len-cases}
use scoutfs_kmod_dev.Base.{
  ◌≤◌, inl, inr, arith, ap, ◌∙◌, sym, ◌≢◌, ◌<◌, ◌+◌, ◌++◌, ◌>>=◌, ◌≡◌, true, false, refl, arith,
  Ret, ok, err, Kernel, bug, done, [], ◌∷◌, subst, Errno,
}
use scoutfs_kmod_dev.Ext.{add_change, Change, Changes, ExtOps, apply_changes, Extent}
use scoutfs_kmod_dev.Ext.Store.{ExtSet, add_to, remove_from, IsExtStore}
use scoutfs_kmod_dev.Ext.Changes.{
  Breaks, Errs, after_change, after_changes, CanRemove, Leaves, apply_changes-Leaves,
}

after_changes-append :
    (H : ExtSet) (xs ys : Changes)
    → after_changes H (xs ++ ys) ≡ after_changes (after_changes H xs) ys
after_changes-append H [] ys = refl
after_changes-append H (c ∷ xs) ys = after_changes-append (after_change H c) xs ys

CanRemove-append :
    (H : ExtSet) (xs ys : Changes)
    → CanRemove H xs
    → CanRemove (after_changes H xs) ys
    → CanRemove H (xs ++ ys)
CanRemove-append H [] ys hx hy = hy
CanRemove-append H (c ∷ xs) ys hx hy = (hx.0, CanRemove-append (after_change H c) xs ys hx.1 hy)

-- Each extent to insert is no member when its turn comes.
abbrev pub AllNew : ExtSet → Changes → Type 0
AllNew H [] = Unit
AllNew H (c ∷ chg) = (c.ins ≡ true → H c.ext ≡ false) × AllNew (after_change H c) chg

AllNew-append :
    (H : ExtSet) (xs ys : Changes)
    → AllNew H xs
    → AllNew (after_changes H xs) ys
    → AllNew H (xs ++ ys)
AllNew-append H [] ys hx hy = hy
AllNew-append H (c ∷ xs) ys hx hy = (hx.0, AllNew-append (after_change H c) xs ys hx.1 hy)

-- Changes that were collected on the way, and the set that they lead to.
pub record Collected (H : ExtSet) (chg : Changes) (K : ExtSet) : Type 0 where
  pub leads : after_changes H chg ≡ K
  pub can : CanRemove H chg
  pub new : AllNew H chg

-- Changes that lead from the store's set to one of which `P` holds, each extent to remove being held
-- when its turn comes and each extent to insert not: made in order they come to one that fails with
-- the error.
abbrev pub OpFailed :
    {S : Type 0} → ExtOps S → (S → ExtSet) → S → (ExtSet → Type 0) → Errno → Type 0
OpFailed ops holds s P e =
    (chg : Changes) × (K : ExtSet) × Collected (holds s) chg K × P K × Errs ops s chg e

-- Such changes come to one that fails, and then to one that cannot be taken back.
abbrev pub BackFailed : {S : Type 0} → ExtOps S → (S → ExtSet) → S → (ExtSet → Type 0) → Type 0
BackFailed ops holds s P =
    (chg : Changes) × (K : ExtSet) × Collected (holds s) chg K × P K × Breaks ops s [] chg

-- The set of extents after an operation on `s`: `P` holds of it on success; an error is one of
-- `Fails` and leaves it as it was; a BUG_ON fires only where the changes failed and could not be
-- taken back.
abbrev pub Gives :
    {S : Type 0}
    → ExtOps S
    → (S → ExtSet)
    → S
    → (Errno → Type 0)
    → (ExtSet → Type 0)
    → Kernel (Ret × S)
    → Type 0
Gives ops holds s Fails P bug = BackFailed ops holds s P
Gives ops holds s Fails P (done (ok, s')) = P (holds s')
Gives ops holds s Fails P (done (err e, s')) = (holds s' ≡ holds s) × Fails e

module _ {S : Type 0} (ops : ExtOps S) (holds : S → ExtSet) where
  Gives-Leaves :
      (s : S) (chg : Changes) (K : ExtSet) (Fails : Errno → Type 0) (P : ExtSet → Type 0)
      → Collected (holds s) chg K
      → P K
      → ((e : Errno) → OpFailed ops holds s P e → Fails e)
      → (r : Kernel (Ret × S)) → Leaves ops holds s [] chg (holds s) (after_changes (holds s) chg) r
      → Gives ops holds s Fails P r
  Gives-Leaves s chg K Fails P col h why bug l = (chg, K, col, h, l)
  Gives-Leaves s chg K Fails P col h why (done (ok, s')) l = subst P (sym col.leads ∙ sym l) h
  Gives-Leaves s chg K Fails P col h why (done (err e, s')) l = (l.0, why e (chg, K, col, h, l.1))

pub Collected-nil : (H : ExtSet) → Collected H [] H
Collected-nil H = record { leads = refl; can = tt; new = tt }

Collected-snoc :
    (H K : ExtSet) (chg : Changes) (c : Change)
    → (c.ins ≡ false → K c.ext ≡ true)
    → (c.ins ≡ true → K c.ext ≡ false)
    → Collected H chg K
    → Collected H (chg ++ c ∷ []) (after_change K c)
Collected-snoc H K chg c held absent col = record {
  leads = after_changes-append H chg (c ∷ []) ∙ ap (λ L. after_change L c) col.leads;
  can =
      CanRemove-append H chg (c ∷ []) col.can
        (subst (λ L. (c.ins ≡ false → L c.ext ≡ true) × Unit {0}) (sym col.leads) (held, tt));
  new =
      AllNew-append H chg (c ∷ []) col.new
        (subst (λ L. (c.ins ≡ true → L c.ext ≡ false) × Unit {0}) (sym col.leads) (absent, tt));
}

add_change-snoc :
    (chg : Changes) (e : Extent) (ins : Bool)
    → length chg < 4
    → e.len ≢ 0
    → add_change chg e ins ≡ done (chg ++ record { ext = e; ins = ins } ∷ [])
unfolding add_change
add_change-snoc chg e ins room n = ground arith

-- An empty extent is no change.
pub add_change-empty :
    (chg : Changes) (e : Extent) (ins : Bool) → e.len ≡ 0 → add_change chg e ins ≡ done chg
unfolding add_change
add_change-empty chg e ins z = ground arith

module _ {ℓ} {A : Type ℓ} (P : Kernel A → Type 0) (H K : ExtSet) (chg : Changes) (e : Extent)
    (f : Changes → Kernel A) where
  -- There is room for another change, and what follows may take it as made.
  add_change-rule :
      (ins : Bool)
      → length chg < 4
      → e.len ≢ 0
      → (ins ≡ false → K e ≡ true)
      → (ins ≡ true → K e ≡ false)
      → Collected H chg K
      → ((chg' : Changes)
          → Collected H chg' (after_change K (record { ext = e; ins = ins }))
          → length chg' ≡ length chg + 1
          → P (f chg'))
      → P (add_change chg e ins >>= f)
  add_change-rule ins room n held absent col rest = rw (add_change-snoc chg e ins room n) (
      rest _ (Collected-snoc H K chg (record { ext = e; ins = ins }) held absent col)
        (length-append chg _))

  pub add_change_remove :
      length chg < 4
      → e.len ≢ 0
      → K e ≡ true
      → Collected H chg K
      → ((chg' : Changes)
          → Collected H chg' (remove_from K e)
          → length chg' ≡ length chg + 1
          → P (f chg'))
      → P (add_change chg e false >>= f)
  add_change_remove room n held =
      add_change-rule false room n (λ _. held) (λ h. absurd (false≢true h))

  pub add_change_insert :
      length chg < 4
      → e.len ≢ 0
      → K e ≡ false
      → Collected H chg K
      → ((chg' : Changes)
          → Collected H chg' (add_to K e)
          → length chg' ≡ length chg + 1
          → P (f chg'))
      → P (add_change chg e true >>= f)
  add_change_insert room n absent =
      add_change-rule true room n (λ h. absurd (false≢true (sym h))) (λ _. absent)

module _ {ℓ} {A : Type ℓ} (P : Kernel A → Type 0) (H K : ExtSet) (chg : Changes) (e : Extent)
    (f : Changes → Kernel A) where
  -- A piece that may be empty.
  pub add_change_piece :
      length chg < 4
      → (e.len ≢ 0 → K e ≡ false)
      → Collected H chg K
      → ((chg' : Changes)
          → Collected H chg' (with_piece K e)
          → length chg' ≤ length chg + 1
          → P (f chg'))
      → P (add_change chg e true >>= f)
  add_change_piece room absent col rest = elim (len-cases e) [
    | inl z ↦ rw (add_change-empty chg e true z.0) (rest chg (rw (z.1) col) (omega arith))
    | inr z ↦
        add_change_insert P H K chg e f room z.0 (absent z.0) col
          (λ chg' col' more. rest chg' (rw (z.1) col') (omega (arith, more)))
  ]

module _ {S : Type 0} (ops : ExtOps S) (holds : S → ExtSet) (store : IsExtStore ops holds) where
  pub apply_changes-Gives :
      (s : S) (chg : Changes) (K : ExtSet) (Fails : Errno → Type 0) (P : ExtSet → Type 0)
      → Collected (holds s) chg K
      → ((e : Errno) → OpFailed ops holds s P e → Fails e)
      → P K
      → Gives ops holds s Fails P (apply_changes ops s chg)
  apply_changes-Gives s chg K Fails P col why h =
      Gives-Leaves ops holds s chg K Fails P col h why (apply_changes ops s chg)
        (apply_changes-Leaves ops holds store s chg col.can)
