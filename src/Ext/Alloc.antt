-- ===== src/Ext/Alloc.antt =====
-- ext_alloc hands out the front of an extent and takes its blocks out of the store.
use scoutfs_kmod_dev.Ext.Collected.{OpFailed, BackFailed, Collected}
use scoutfs_kmod_dev.Base.{
  ◌>>=◌, ltb, if◌then◌else◌, ℕ, ◌≤◌, ◌<◌, ◌≡◌, Bool, true, Ret, ok, err, Kernel, done, bug, min,
  add64, sub64, [], false, Errno, ◌⊎◌,
}
use scoutfs_kmod_dev.Ext.{
  apply_changes, add_change, ext_map_add, ext_split_left, ext_split_right, Extent, ext_zero, ExtOps,
  alloc_result,
}
use scoutfs_kmod_dev.Ext.Blocks.{At}
use scoutfs_kmod_dev.Ext.Store.{ExtSet, remove_from, IsExtSet, IsExtStore, Maps}
use scoutfs_kmod_dev.Ext.Pieces.{with_piece}
use scoutfs_kmod_dev.Ext.Remove.{Cuts}

-- The blocks of some extent of at most `count` blocks are cut out of the set, which said of them what
-- the extent says.
abbrev pub HandsOut : (ℕ → Bool) → ExtSet → ℕ → Extent → ExtSet → Type 0
HandsOut unmapped before count ext after =
    (0 < ext.len)
    × (ext.len ≤ count)
    × ((b m f : ℕ) → At ext b m f → Maps before b m f)
    × Cuts unmapped before ext.start ext.len after

abbrev pub HandsSome : (ℕ → Bool) → ExtSet → ℕ → ExtSet → Type 0
HandsSome unmapped before count after = (ext : Extent) × HandsOut unmapped before count ext after

-- Why ext_alloc fails: a change failed on the way to its result, or `next` failed.
abbrev pub AllocFails :
    {S : Type 0} → ExtOps S → (S → ExtSet) → (ℕ → Bool) → S → ℕ → ℕ → ℕ → Errno → Type 0
AllocFails ops holds unmapped s start len count r =
    OpFailed ops holds s (HandsSome unmapped (holds s) count) r ⊎ ((ops.next s start len).0 ≡ err r)

-- The extent handed out has between one and `count` blocks, says of them what the store said, and
-- they are cut out of the store; an error hands out nothing and leaves the set as it was.
abbrev pub Allocates :
    {S : Type 0}
    → ExtOps S
    → (S → ExtSet)
    → (ℕ → Bool)
    → S
    → ℕ
    → (Errno → Type 0)
    → Kernel (Ret × Extent × S)
    → Type 0
Allocates ops holds unmapped s count Fails bug =
    BackFailed ops holds s (HandsSome unmapped (holds s) count)
Allocates ops holds unmapped s count Fails (done (ok, ext, s')) =
    HandsOut unmapped (holds s) count ext (holds s')
Allocates ops holds unmapped s count Fails (done (err e, ext, s')) =
    (ext ≡ ext_zero) × (holds s' ≡ holds s) × Fails e

module _ {S : Type 0} (ops : ExtOps S) (holds : S → ExtSet) (store : IsExtStore ops holds)
    (unmapped : ℕ → Bool) (s : S) (members : IsExtSet unmapped (holds s)) (start len count : ℕ)
    (pos : 0 < count) where
  -- the rest of an extent that is larger than asked for
  abbrev rest : Extent → Extent
  rest found = record {
    start = add64 found.start count;
    len = sub64 found.len count;
    map = ext_map_add found.map count;
    flags = found.flags;
  }

  abbrev taken : Extent → Extent
  taken found = record found { len = min found.len count }

  abbrev Answer : Kernel (Ret × Extent × S) → Type 0
  Answer = Allocates ops holds unmapped s count (AllocFails ops holds unmapped s start len count)

  module _ (found : Extent) (held : holds s found ≡ true) where
    abbrev n : ℕ
    n = min found.len count

    abbrev after : ExtSet
    after =
        with_piece (with_piece (remove_from (holds s) found) (ext_split_left found found.start n))
          (ext_split_right found found.start n)

    -- the end of ext_alloc
    abbrev finish : Kernel (Ret × S) → Kernel (Ret × Extent × S)
    finish m = do (r, s') ← m; done (alloc_result r found count s')

    -- what ext_alloc does with the extent that it found
    abbrev hand_out : Kernel (Ret × Extent × S)
    hand_out = do
      c1 ← add_change [] found false
      c2 ← if ltb count found.len then add_change c1 (rest found) true else done c1
      finish (apply_changes ops s c2)
