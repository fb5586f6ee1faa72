-- ===== src/Ext/Tests.antt =====
-- Runs of ext.c over the list store, and its theorems at concrete stores.
use scoutfs_kmod_dev.Ext.Blocks.{At, can_merge-mixed}
use scoutfs_kmod_dev.Base.{
  add64, sub64, ℕ, ◌≡◌, Bool, true, false, refl, arith, ok, err, einval, List, [], ◌∷◌, done, ◌≢◌,
}
use scoutfs_kmod_dev.Ext.{
  ext_overlap, ext_inside, ext_map_add, ext_can_merge, ext_split_left, ext_split_right, add_change,
  insert_left, insert_rest, apply_from, undo_changes, undo_op, change_op, alloc_result, Extent,
  ext_insert, ext_remove, ext_alloc, apply_changes,
}
use scoutfs_kmod_dev.Ext.Store.{IsExtSet, ext_eq_iff}
use scoutfs_kmod_dev.Ext.Changes.{Leaves, after_changes, apply_changes-Leaves}
use scoutfs_kmod_dev.Ext.Insert.{Extends, ext_insert-Extends, InsertFails}
use scoutfs_kmod_dev.Ext.Remove.{Cuts, ext_remove-Cuts, RemoveFails}
use scoutfs_kmod_dev.Ext.Collected.{Gives}
use scoutfs_kmod_dev.Ext.Set.{ext_set, set_left, set_right, set_rest}
use scoutfs_kmod_dev.Ext.ListStore.{
  list_ops, list-IsExtStore, member, list_next, first_after, without,
}

-- What a run of ext.c over the list store computes with, to be named on `unfolding` lines.
run_of_ext : Unit {0}
unfolding ext_overlap ext_inside ext_map_add ext_can_merge ext_split_left ext_split_right add64
    sub64 add_change insert_left insert_rest apply_changes apply_from undo_changes undo_op change_op
    alloc_result list_next first_after without
run_of_ext = tt

abbrev free : ℕ → ℕ → Extent
free start len = record { start = start; len = len; map = 0; flags = 0 }

abbrev offline : ℕ → ℕ → Extent
offline start len = record { start = start; len = len; map = 0; flags = 1 }

abbrev two_free : List Extent
two_free = free 8 4 ∷ free 20 4 ∷ []

abbrev all_unmapped : ℕ → Bool
all_unmapped _ = true

two_free-IsExtSet : IsExtSet all_unmapped (member two_free)
two_free-IsExtSet = record {
  fits = λ x h. ground (arith, ext_eq_iff x (free 8 4), ext_eq_iff x (free 20 4));
  kind = λ x h. ground (arith, ext_eq_iff x (free 8 4), ext_eq_iff x (free 20 4));
  apart = λ x y b p q i j k l. ground (
    arith,
    ext_eq_iff x (free 8 4),
    ext_eq_iff x (free 20 4),
    ext_eq_iff y (free 8 4),
    ext_eq_iff y (free 20 4),
  );
}

-- An extent that fills a gap is merged with both neighbours.
insert_merges : ext_insert list_ops two_free (free 12 8) ≡ done (ok, free 8 16 ∷ [])
unfolding ext_insert run_of_ext
insert_merges = refl

insert_overlaps : ext_insert list_ops two_free (free 10 4) ≡ done (err einval, two_free)
unfolding ext_insert run_of_ext
insert_overlaps = refl

remove_splits : ext_remove list_ops two_free 9 2 ≡ done (ok, free 11 1 ∷ free 8 1 ∷ free 20 4 ∷ [])
unfolding ext_remove run_of_ext
remove_splits = refl

alloc_front : ext_alloc list_ops two_free 0 1 3 ≡ done (ok, free 8 3, free 11 1 ∷ free 20 4 ∷ [])
unfolding ext_alloc run_of_ext
alloc_front = refl

apply_changes-Leaves_example :
    Leaves list_ops member two_free []
      (record { ext = free 8 4; ins = false } ∷ record { ext = free 20 4; ins = true } ∷ [])
      (member two_free)
      (after_changes
        (member two_free)
        (record { ext = free 8 4; ins = false } ∷ record { ext = free 20 4; ins = true } ∷ []))
      (apply_changes list_ops two_free
        (record { ext = free 8 4; ins = false } ∷ record { ext = free 20 4; ins = true } ∷ []))
apply_changes-Leaves_example =
    apply_changes-Leaves list_ops member list-IsExtStore two_free _ (λ _. refl, (λ h. cc, tt))

ext_insert-Extends_example :
    Gives list_ops member two_free
      (InsertFails list_ops member all_unmapped two_free (free 12 8))
      (Extends all_unmapped (member two_free) (free 12 8))
      (ext_insert list_ops two_free (free 12 8))
ext_insert-Extends_example =
    ext_insert-Extends list_ops member list-IsExtStore all_unmapped two_free two_free-IsExtSet
      (free 12 8) (omega arith) refl

ext_remove-Cuts_example :
    Gives list_ops member two_free
      (RemoveFails list_ops member all_unmapped two_free 9 2)
      (Cuts all_unmapped (member two_free) 9 2)
      (ext_remove list_ops two_free 9 2)
ext_remove-Cuts_example =
    ext_remove-Cuts list_ops member list-IsExtStore all_unmapped two_free two_free-IsExtSet 9 2
      (omega arith) (omega arith)

can_merge-mixed_example :
    (ext_can_merge (free 0 8) (record { start = 8; len = 4; map = 8; flags = 0 }) ≡ true)
    × ((b m f : ℕ)
        → At (record { start = 8; len = 4; map = 8; flags = 0 }) b m f
        → (m ≢ 0) × At (free 0 12) b 0 f)
can_merge-mixed_example =
    can_merge-mixed (free 0 8) (record { start = 8; len = 4; map = 8; flags = 0 }) refl
      (omega arith) refl refl (omega arith) refl

-- The middle of an extent is unmapped: its two edges are left.
set_unmaps :
    ext_set list_ops
      (record { start = 0; len = 10; map = 100; flags = 0 } ∷ [])
      (record { start = 4; len = 2; map = 0; flags = 0 })
    ≡ done (
      ok,
      record { start = 6; len = 4; map = 106; flags = 0 }
          ∷ record { start = 0; len = 4; map = 100; flags = 0 }
          ∷ [],
    )
unfolding ext_set set_left set_right set_rest run_of_ext
set_unmaps = refl

-- A region that is set merges with both of its neighbours.
set_merges :
    ext_set list_ops (offline 0 4 ∷ offline 8 4 ∷ []) (offline 4 4) ≡ done (ok, offline 0 12 ∷ [])
unfolding ext_set set_left set_right set_rest run_of_ext
set_merges = refl
