-- ===== src/Ext/Changes.antt =====
-- apply_changes makes all of its changes or, where one fails, none.

use scoutfs_kmod_dev.Base.{
  if◌then◌else◌, Bool-cases, ◌≡◌, inl, inr, true, false, refl, arith, Ret, ok, err, Errno, Kernel,
  bug, done, [], ◌∷◌, subst, ◌∙◌, ◌⊎◌, ap, sym,
}
use scoutfs_kmod_dev.Base.Rules.{ret_rule}
use scoutfs_kmod_dev.Ext.{
  Change, Changes, ExtOps, change_op, undo_op, undo_changes, apply_from, apply_changes,
}
use scoutfs_kmod_dev.Ext.Store.{
  ExtSet, add_to, remove_from, IsExtStore, remove_from-add_to, add_to-remove_from, add_to_self,
}

abbrev pub after_change : ExtSet → Change → ExtSet
after_change H c = if c.ins then add_to H c.ext else remove_from H c.ext

abbrev pub after_changes : ExtSet → Changes → ExtSet
after_changes H [] = H
after_changes H (c ∷ chg) = after_changes (after_change H c) chg

-- Every extent that is to be removed is held when its turn comes.
abbrev pub CanRemove : ExtSet → Changes → Type 0
CanRemove H [] = Unit
CanRemove H (c ∷ chg) = (c.ins ≡ false → H c.ext ≡ true) × CanRemove (after_change H c) chg

-- Taking back `made`, the last one first, leads from `H` to `H0`.
abbrev Undoes : ExtSet → Changes → ExtSet → Type 0
Undoes H [] H0 = H ≡ H0
Undoes H (c ∷ made) H0 =
    (c.ins ≡ true → H c.ext ≡ true)
    × Undoes (if c.ins then remove_from H c.ext else add_to H c.ext) made H0

-- Changes that are taken back from `s` on, the last one first, come to one that fails.
abbrev pub StuckBack : {S : Type 0} → ExtOps S → S → Changes → Type 0
StuckBack ops s [] = ⊥
StuckBack ops s (c ∷ made) =
    ((e : Errno) × ((undo_op ops s c).0 ≡ err e))
    ⊎ (((undo_op ops s c).0 ≡ ok) × StuckBack ops (undo_op ops s c).1 made)

-- Changes that are made from `s` on, in order, come to one that fails with the error.
abbrev pub Errs : {S : Type 0} → ExtOps S → S → Changes → Errno → Type 0
Errs ops s [] e = ⊥
Errs ops s (c ∷ chg) e =
    ((change_op ops s c).0 ≡ err e)
    ⊎ (((change_op ops s c).0 ≡ ok) × Errs ops (change_op ops s c).1 chg e)

-- Changes that are made from `s` on, after `made`, come to one that fails, and taking back the ones
-- before it, from the store that they led to, comes to one that fails, too.
abbrev pub Breaks : {S : Type 0} → ExtOps S → S → Changes → Changes → Type 0
Breaks ops s made [] = ⊥
Breaks ops s made (c ∷ chg) =
    ((e : Errno) × ((change_op ops s c).0 ≡ err e) × StuckBack ops (change_op ops s c).1 made)
    ⊎ (((change_op ops s c).0 ≡ ok) × Breaks ops (change_op ops s c).1 (c ∷ made) chg)

-- What is left of the run of the changes `chg` from `s`, after `made`. Success leaves the set
-- `after`; an error is that of the change that failed, and leaves the set `before`; a BUG_ON fires
-- only where a change failed and then one of those before it could not be taken back.
abbrev pub Leaves :
    {S : Type 0}
    → ExtOps S
    → (S → ExtSet)
    → S
    → Changes
    → Changes
    → ExtSet
    → ExtSet
    → Kernel (Ret × S)
    → Type 0
Leaves ops holds s made chg before after bug = Breaks ops s made chg
Leaves ops holds s made chg before after (done (ok, s')) = holds s' ≡ after
Leaves ops holds s made chg before after (done (err e, s')) = (holds s' ≡ before) × Errs ops s chg e

-- The changes `made` are taken back, for the error `e`.
abbrev TakenBack :
    {S : Type 0}
    → ExtOps S
    → (S → ExtSet)
    → S
    → Errno
    → Changes
    → ExtSet
    → Kernel (Ret × S)
    → Type 0
TakenBack ops holds s e made before bug = StuckBack ops s made
TakenBack ops holds s e made before (done (ok, s')) = ⊥
TakenBack ops holds s e made before (done (err r, s')) = (holds s' ≡ before) × (r ≡ e)

change_back :
    (H : ExtSet) (c : Change)
    → (c.ins ≡ false → H c.ext ≡ true)
    → (c.ins ≡ true → H c.ext ≡ false)
    → (if c.ins then remove_from (after_change H c) c.ext else add_to (after_change H c) c.ext) ≡ H
change_back H c held absent = elim (Bool-cases c.ins) [
  | inl t ↦ rw t (remove_from-add_to H c.ext (absent t))
  | inr t ↦ rw t (add_to-remove_from H c.ext (held t))
]

change_back-add_to : (H : ExtSet) (c : Change) → c.ins ≡ true → after_change H c c.ext ≡ true
change_back-add_to H c t = rw t (add_to_self H c.ext)

module _ {S : Type 0} (ops : ExtOps S) (holds : S → ExtSet) (store : IsExtStore ops holds) where
  pub change_op_ok :
      (s : S) (c : Change)
      → (c.ins ≡ false → holds s c.ext ≡ true)
      → (change_op ops s c).0 ≡ ok
      → (c.ins ≡ true → holds s c.ext ≡ false)
        × (holds (change_op ops s c).1 ≡ after_change (holds s) c)
  unfolding change_op
  change_op_ok s c can e = elim (Bool-cases c.ins) [
    | inl t ↦ ground (arith, store.insert_ok s c.ext)
    | inr t ↦ ground (arith, store.remove_ok s c.ext)
  ]

  change_op_err :
      (s : S) (c : Change) (r : Errno)
      → (change_op ops s c).0 ≡ err r
      → holds (change_op ops s c).1 ≡ holds s
  unfolding change_op
  change_op_err s c r e = ground (arith, store.insert_err s c.ext r, store.remove_err s c.ext r)

  undo_op_ok :
      (s : S) (c : Change)
      → (c.ins ≡ true → holds s c.ext ≡ true)
      → (undo_op ops s c).0 ≡ ok
      → holds (undo_op ops s c).1
        ≡ (if c.ins then remove_from (holds s) c.ext else add_to (holds s) c.ext)
  unfolding undo_op
  undo_op_ok s c can e = ground (arith, store.remove_ok s c.ext, store.insert_ok s c.ext)

  stepped_back :
      (s : S) (e : Errno) (c : Change) (made : Changes) (H0 : ExtSet)
      → (undo_op ops s c).0 ≡ ok
      → (m : Kernel (Ret × S)) → TakenBack ops holds (undo_op ops s c).1 e made H0 m
      → TakenBack ops holds s e (c ∷ made) H0 m
  stepped_back s e c made H0 q bug l = inr (q, l)
  stepped_back s e c made H0 q (done (ok, s')) l = l
  stepped_back s e c made H0 q (done (err r, s')) l = l

  undo_changes-TakenBack :
      (s : S) (e : Errno) (made : Changes) (H0 : ExtSet)
      → Undoes (holds s) made H0
      → TakenBack ops holds s e made H0 (undo_changes ops s e made)
  unfolding undo_changes
  undo_changes-TakenBack s e [] H0 u = (u, refl)
  undo_changes-TakenBack s e (c ∷ made) H0 u =
      ret_rule (TakenBack ops holds s e (c ∷ made) H0) (undo_op ops s c).0 (λ _. bug)
        (undo_changes ops (undo_op ops s c).1 e made) (λ r q. inl (r, q))
        (λ q.
          stepped_back s e c made H0 q (undo_changes ops (undo_op ops s c).1 e made)
            (undo_changes-TakenBack (undo_op ops s c).1 e made H0 (rw (undo_op_ok s c u.0 q) u.1)))

  failed_here :
      (s : S) (made chg : Changes) (c : Change) (e : Errno) (H0 after : ExtSet)
      → (change_op ops s c).0 ≡ err e
      → (m : Kernel (Ret × S)) → TakenBack ops holds (change_op ops s c).1 e made H0 m
      → Leaves ops holds s made (c ∷ chg) H0 after m
  failed_here s made chg c e H0 after q bug l = inl (e, q, l)
  failed_here s made chg c e H0 after q (done (ok, s')) l = absurd l
  failed_here s made chg c e H0 after q (done (err r, s')) l = (l.0, inl (q ∙ ap err (sym l.1)))

  failed_later :
      (s : S) (made chg : Changes) (c : Change) (H0 after : ExtSet)
      → (change_op ops s c).0 ≡ ok
      → (m : Kernel (Ret × S)) → Leaves ops holds (change_op ops s c).1 (c ∷ made) chg H0 after m
      → Leaves ops holds s made (c ∷ chg) H0 after m
  failed_later s made chg c H0 after q bug l = inr (q, l)
  failed_later s made chg c H0 after q (done (ok, s')) l = l
  failed_later s made chg c H0 after q (done (err r, s')) l = (l.0, inr (q, l.1))

  apply_from-Leaves :
      (s : S) (made chg : Changes) (H0 : ExtSet)
      → Undoes (holds s) made H0
      → CanRemove (holds s) chg
      → Leaves ops holds s made chg H0 (after_changes (holds s) chg) (apply_from ops s made chg)
  unfolding apply_from
  apply_from-Leaves s made [] H0 u c = refl
  apply_from-Leaves s made (c ∷ chg) H0 u can =
      let s' = (change_op ops s c).1 in
      let after = after_changes (holds s) (c ∷ chg) in
      ret_rule (Leaves ops holds s made (c ∷ chg) H0 after) (change_op ops s c).0
        (λ e. undo_changes ops s' e made) (apply_from ops s' (c ∷ made) chg)
        (λ r q.
          failed_here s made chg c r H0 after q (undo_changes ops s' r made)
            (undo_changes-TakenBack s' r made H0 (rw (change_op_err s c r q) u)))
        (λ q.
          let (absent, leads) = change_op_ok s c can.0 q in
          failed_later s made chg c H0 after q (apply_from ops s' (c ∷ made) chg) (
            subst
              (λ K.
                Leaves ops holds s' (c ∷ made) chg H0 (after_changes K chg)
                  (apply_from ops s' (c ∷ made) chg))
              leads
              (apply_from-Leaves s' (c ∷ made) chg H0
                (rw leads
                  (change_back-add_to (holds s) c, rw (change_back (holds s) c can.0 absent) u))
                (rw leads can.1))))

  -- Where every extent to remove is held when its turn comes, apply_changes that succeeds has made
  -- all the changes in order. One that fails has put the set of extents back as it was, and hands
  -- back the error of the first change that failed as they were made in order. A BUG_ON fires only
  -- where a change failed and then, as those before it were taken back, the last one first, one of
  -- them could not be.
  pub apply_changes-Leaves :
      (s : S) (chg : Changes)
      → CanRemove (holds s) chg
      → Leaves ops holds s [] chg (holds s) (after_changes (holds s) chg) (apply_changes ops s chg)
  unfolding apply_changes
  apply_changes-Leaves s chg can = apply_from-Leaves s [] chg (holds s) refl can
