-- ===== src/Ext/Insert.antt =====
-- ext_insert adds what the extent says to what the store's extents say.
use scoutfs_kmod_dev.Ext.Overlap.{neighbour, not_Fresh, Fresh-of_apart, Fresh-of_none}
use scoutfs_kmod_dev.Base.{
  ==_zero, guarded-false, guarded-true, if◌then◌else◌, not, ◌&&◌, einval, ◌>>=◌, ℕ, ◌+◌, ◌<◌, ◌≡◌,
  ◌↔◌, Bool, true, refl, ◌∙◌, arith, Ret, Kernel, sub64, add64, err, enoent, false, ap, ◌==◌, [],
  done, Errno, inl, inr, ◌⊎◌, ◌≢◌,
}
use scoutfs_kmod_dev.Base.Lists.{length}
use scoutfs_kmod_dev.Ext.{
  add_change, Extent, ExtOps, Changes, ext_can_merge, insert_rest, insert_left, ext_overlap,
  ext_insert,
}
use scoutfs_kmod_dev.Ext.Blocks.{Fits, joined, add64-joined, can_merge-adjacent}
use scoutfs_kmod_dev.Ext.Store.{
  ExtSet, add_to, remove_from, IsExtSet, IsExtStore, Maps, mem-remove_from,
}
use scoutfs_kmod_dev.Ext.Collected.{
  OpFailed, Collected, Gives, add_change_insert, add_change_remove, apply_changes-Gives,
  Collected-nil,
}
use scoutfs_kmod_dev.Base.Rules.{if_rule}
use scoutfs_kmod_dev.Ext.Neighbour.{merge_rule, next_rule}
use scoutfs_kmod_dev.Ext.Pending.{
  Pending, Fresh, Both, Same, Maps-add_to, add_to-IsExtSet, absorb_left, absorb_left-Same,
  absorb_right, absorb_right-Same, Pending-new,
}

-- The set `after` holds what `before` and the extent `e` say, and its members share no block.
pub record Extends (unmapped : ℕ → Bool) (before : ExtSet) (e : Extent) (after : ExtSet)
    : Type 0 where
  pub maps : (b m f : ℕ) → Maps after b m f ↔ Both before e b m f
  pub members : IsExtSet unmapped after
  pub fresh : Fresh before e

-- Why ext_insert fails: a change failed on the way to its result, `next` failed at the start of the
-- extent or at the block before it, or a block of the extent is held.
abbrev pub InsertFails :
    {S : Type 0} → ExtOps S → (S → ExtSet) → (ℕ → Bool) → S → Extent → Errno → Type 0
InsertFails ops holds unmapped s e r =
    OpFailed ops holds s (Extends unmapped (holds s) e) r
    ⊎ ((r ≢ enoent)
        × (((ops.next s e.start 1).0 ≡ err r) ⊎ ((ops.next s (sub64 e.start 1) 1).0 ≡ err r)))
    ⊎ ((r ≡ einval) × ¬ (Fresh (holds s) e))

module _ {S : Type 0} (ops : ExtOps S) (holds : S → ExtSet) (store : IsExtStore ops holds)
    (unmapped : ℕ → Bool) (s : S) (e : Extent) (start : Pending unmapped (holds s) e) where
  abbrev Good : Kernel (Ret × S) → Type 0
  Good = Gives ops holds s (InsertFails ops holds unmapped s e) (Extends unmapped (holds s) e)

  -- What is known on the way: the changes so far lead to `K`, and `K` with the pending extent says
  -- what the store and `e` say.
  record OnWay (room : ℕ) (chg : Changes) (K : ExtSet) (i : Extent) : Type 0 where
    col : Collected (holds s) chg K
    pending : Pending unmapped K i
    same : Same (holds s) e K i
    small : length chg < room

  insert_rest-Good :
      (chg : Changes) (K : ExtSet) (i : Extent) → OnWay 4 chg K i → Good (insert_rest ops s i chg)
  unfolding insert_rest
  insert_rest-Good chg K i w =
      add_change_insert Good (holds s) K chg i _ w.small (omega (arith, w.pending.fits.some_blocks))
        (Pending-new unmapped K i w.pending) w.col
        λ chg' col' _.
          apply_changes-Gives ops holds store s chg' (add_to K i)
            (InsertFails ops holds unmapped s e) (Extends unmapped (holds s) e) col'
            (λ r why. inl why)
            (record {
              maps = λ b m f. (
                λ h. (w.same b m f).1 ((Maps-add_to K i b m f).0 h),
                λ h. (Maps-add_to K i b m f).1 ((w.same b m f).0 h),
              );
              members = add_to-IsExtSet unmapped K i w.pending;
              fresh = start.fresh;
            })

  Same-trans : (H K L : ExtSet) (x y z : Extent) → Same H x K y → Same K y L z → Same H x L z
  Same-trans H K L x y z p q b m f =
      (λ h. (q b m f).0 ((p b m f).0 h), λ h. (p b m f).1 ((q b m f).1 h))

  -- the left neighbour and the pending extent in one, as ext_insert fills it in
  abbrev with_left : Extent → Extent → Extent
  with_left l i = record { start = l.start; len = add64 i.len l.len; map = l.map; flags = i.flags }

  with_left-joined :
      (l i : Extent) → Fits l → Fits i → ext_can_merge l i ≡ true → with_left l i ≡ joined l i
  with_left-joined l i hl hi can =
      ground (arith, add64-joined l i hl hi can, can_merge-adjacent l i hl hi can)

  insert_left-Good :
      (chg : Changes) (K : ExtSet) (i : Extent)
      → OnWay 2 chg K i
      → ((x : Extent) → holds s x ≡ true → x.start + x.len ≡ e.start → K x ≡ true)
      → i.start ≡ e.start
      → Good (insert_left ops s e.start i chg)
  unfolding insert_left
  insert_left-Good chg K i w kept at =
      if_rule Good _ _ _
        (λ _.
          merge_rule ops holds store Good s (sub64 e.start 1) (λ n. ext_can_merge n i) _ _
            (λ r q other. (refl, inr (inl (other, inr q))))
            (λ n held can.
              let adjacent =
                (can_merge-adjacent n i (start.members.fits n held) w.pending.fits can).0 in
              let inside : K n ≡ true = kept n held (adjacent ∙ at) in
              let n_fits = w.pending.members.fits n inside in
              add_change_remove Good (holds s) K chg n (insert_rest ops s (with_left n i))
                (omega (arith, w.small)) (omega (arith, n_fits.some_blocks)) inside w.col
                λ chg' col' more. insert_rest-Good chg' (remove_from K n) _ (
                  rw (with_left-joined n i n_fits w.pending.fits can) (record {
                    col = col';
                    pending = absorb_left unmapped K i w.pending n inside can;
                    same =
                        Same-trans (holds s) K (remove_from K n) e i (joined n i) w.same
                          (absorb_left-Same unmapped K i w.pending n inside can);
                    small = omega (arith, w.small, more);
                  })))
            alone)
        (λ _. alone)
    where
      alone : Good (insert_rest ops s i chg)
      alone = insert_rest-Good chg K i (record {
        col = w.col;
        pending = w.pending;
        same = w.same;
        small = omega (arith, w.small);
      })

module _ {S : Type 0} (ops : ExtOps S) (holds : S → ExtSet) (store : IsExtStore ops holds)
    (unmapped : ℕ → Bool) (s : S) (members : IsExtSet unmapped (holds s)) where
  module _ (e : Extent) (fits : Fits e) (kind : (e.map == 0) ≡ unmapped e.flags) where
    abbrev Answer : Kernel (Ret × S) → Type 0
    Answer = Gives ops holds s (InsertFails ops holds unmapped s e) (Extends unmapped (holds s) e)

    abbrev pending : Fresh (holds s) e → Pending unmapped (holds s) e
    pending fresh = record { members = members; fits = fits; kind = kind; fresh = fresh }

    no_right : Fresh (holds s) e → Answer (insert_left ops s e.start e [])
    no_right fresh =
        insert_left-Good ops holds store unmapped s e (pending fresh) [] (holds s) e
          (record {
            col = Collected-nil (holds s);
            pending = pending fresh;
            same = λ b m f. (λ h. h, λ h. h);
            small = omega arith;
          })
          (λ x held _. held) refl

    with_right :
        (fresh : Fresh (holds s) e) (n : Extent)
        → holds s n ≡ true
        → e.start < n.start + n.len
        → ext_can_merge e n ≡ true
        → Answer (
            add_change [] n false
            >>= insert_left ops s e.start (record e { len = add64 e.len n.len }))
    with_right fresh n held after can =
        let n_fits = members.fits n held in
        add_change_remove Answer (holds s) (holds s) [] n _ (omega arith)
          (omega (arith, n_fits.some_blocks)) held (Collected-nil (holds s))
          λ chg' col' more.
            insert_left-Good ops holds store unmapped s e (pending fresh) chg'
              (remove_from (holds s) n) _
              (rw ((add64-joined e n fits n_fits can).0) (record {
                col = col';
                pending = absorb_right unmapped (holds s) e (pending fresh) n held can;
                same = absorb_right-Same unmapped (holds s) e (pending fresh) n held can;
                small = omega (arith, more);
              }))
              (λ x h at.
                (mem-remove_from (holds s) n x).1
                  (h, λ u. absurd (omega (arith, ap (λ (z : Extent). z.start + z.len) u))))
              refl

    -- On a store whose extents share no block and whose flags tell which of them are unmapped,
    -- ext_insert of an extent that fits, and whose flags tell it too, either succeeds, and then no
    -- block of the extent was held before, each block is mapped as the extent says or as before,
    -- and the extents share no block and the flags tell the same again; or it fails, the set of
    -- extents is as it was, and the error is one of the changes that lead to such a result, or of
    -- `next` at the extent's start or the block before it, or is einval and a block of the extent
    -- was held. A BUG_ON fires only where such changes, made in order from the store, came to one
    -- that fails, and taking back those before it came to one that fails too.
    pub ext_insert-Extends : Answer (ext_insert ops s e)
    unfolding ext_insert
    ext_insert-Extends =
        next_rule ops holds store Answer s e.start
          (λ r n.
            if not (n.len == 0) && ext_overlap e n.start n.len
            then done (err einval, s)
            else if not (n.len == 0) && ext_can_merge e n
            then (do
              chg ← add_change [] n false
              insert_left ops s e.start (record e { len = add64 e.len n.len }) chg)
            else insert_left ops s e.start e [])
          (λ r q other. (refl, inr (inl (other, inl q))))
          (λ q.
            let (held, after, _) = store.next_ok s e.start q in
            let some_len : ((neighbour ops holds store unmapped s members e).len == 0) ≡ false =
              ==_zero _
                (members.fits (neighbour ops holds store unmapped s members e) held).some_blocks in
            if_rule Answer _ _ _
              (λ t. (
                refl,
                inr (
                    inr (
                      refl,
                      not_Fresh ops holds store unmapped s members e fits q (guarded-true _ _ t),
                    )),
              ))
              λ no.
                let fresh =
                  Fresh-of_apart ops holds store unmapped s members e fits q
                    (guarded-false _ _ some_len no) in
                if_rule Answer _ _ _
                  (λ can.
                    with_right fresh (neighbour ops holds store unmapped s members e) held after
                      (guarded-true _ _ can))
                  (λ _. no_right fresh))
          (λ q.
            rw ((store.next_enoent s e.start q).0)
              (no_right (Fresh-of_none ops holds store unmapped s members e q)))
