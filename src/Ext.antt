-- ===== src/Ext.antt =====
-- ext.c and ext.h: extents of blocks are merged and split over a store that its caller provides.
pub mod Blocks
pub mod Store
pub mod Changes
pub mod Collected
pub mod Pieces
pub mod Remove
pub mod Alloc
pub mod ListStore
mod Tests
mod Neighbour
pub mod Pending
mod Overlap
pub mod Insert
pub mod Reliable
pub mod Set
use scoutfs_kmod_dev.Base.{
  ℕ, suc, ◌+◌, ◌-◌, ◌==◌, ltb, leb, if◌then◌else◌, Bool, true, false, not, ◌&&◌, ◌||◌, none, some,
  add64, sub64, List, [], ◌∷◌, ◌++◌, Ret, ok, err, Errno, enoent, einval, Kernel, bug, done, ◌>>=◌,
  hard_error, is_ok, min,
}
use scoutfs_kmod_dev.Base.Lists.{length}

-- struct scoutfs_extent
pub record Extent : Type 0 where
  pub start : ℕ
  pub len : ℕ
  pub map : ℕ
  pub flags : ℕ

-- struct scoutfs_ext_ops over a store of type `S`; `next` hands back its result and the extent
-- that it wrote.
pub record ExtOps (S : Type 0) : Type 0 where
  pub next : S → ℕ → ℕ → Ret × Extent
  pub insert : S → Extent → Ret × S
  pub remove : S → Extent → Ret × S

abbrev pub ext_zero : Extent
ext_zero = record { start = 0; len = 0; map = 0; flags = 0 }

unfoldable pub ext_overlap : Extent → ℕ → ℕ → Bool
ext_overlap ext start len =
    let e_end = sub64 (add64 ext.start ext.len) 1 in
    let end = sub64 (add64 start len) 1 in not (ltb e_end start || ltb end ext.start)

unfoldable pub ext_inside : ℕ → ℕ → Extent → Bool
ext_inside start len out =
    let in_end = sub64 (add64 start len) 1 in
    let out_end = sub64 (add64 out.start out.len) 1 in leb out.start start && leb in_end out_end

unfoldable pub ext_map_add : ℕ → ℕ → ℕ
ext_map_add map diff = if map == 0 then 0 else add64 map diff

unfoldable pub ext_can_merge : Extent → Extent → Bool
ext_can_merge left right =
    add64 left.start left.len == right.start
    && (left.map == 0 && right.map == 0 || add64 left.map left.len == right.map)
    && left.flags == right.flags

-- the left and the right rest of `ext` without the range
unfoldable pub ext_split_left : Extent → ℕ → ℕ → Extent
ext_split_left ext start len =
    if ltb ext.start start then record ext { len = sub64 start ext.start } else ext_zero

unfoldable pub ext_split_right : Extent → ℕ → ℕ → Extent
ext_split_right ext start len =
    let right_start = add64 start len in
    if ltb (add64 start len) (add64 ext.start ext.len)
    then record {
      start = right_start;
      len = sub64 (add64 ext.start ext.len) right_start;
      map = ext_map_add ext.map (sub64 right_start ext.start);
      flags = ext.flags;
    }
    else ext_zero

pub record Change : Type 0 where
  pub ext : Extent
  pub ins : Bool

-- struct extent_changes: the first `nr` slots of its four
abbrev pub Changes : Type 0
Changes = List Change

unfoldable pub add_change : Changes → Extent → Bool → Kernel Changes
add_change chg ext ins =
    if ext.len == 0
    then done chg
    else if length chg == 4
    then bug
    else done (chg ++ record { ext = ext; ins = ins } ∷ [])

-- what ext_alloc hands back once the changes are applied
unfoldable pub alloc_result {ℓ} : {S : Type ℓ} → Ret → Extent → ℕ → S → Ret × Extent × S
alloc_result ok found count s = (ok, record found { len = min found.len count }, s)
alloc_result (err e) found count s = (err e, ext_zero, s)

module _ {S : Type 0} (ops : ExtOps S) where
  -- the operation that a change asks for, and the one that takes it back
  unfoldable pub change_op : S → Change → Ret × S
  change_op s c = if c.ins then ops.insert s c.ext else ops.remove s c.ext

  unfoldable pub undo_op : S → Change → Ret × S
  undo_op s c = if c.ins then ops.remove s c.ext else ops.insert s c.ext

  -- the second loop of apply_changes, over the changes that were made, the last one first
  unfoldable pub undo_changes : S → Errno → Changes → Kernel (Ret × S)
  undo_changes s e [] = done (err e, s)
  undo_changes s e (c ∷ made) =
      let (r, s') = undo_op s c in elim r [ ok ↦ undo_changes s' e made | err _ ↦ bug ]

  -- its first loop, which leaves to the second at an error
  unfoldable pub apply_from : S → Changes → Changes → Kernel (Ret × S)
  apply_from s made [] = done (ok, s)
  apply_from s made (c ∷ chg) =
      let (r, s') = change_op s c in
      elim r [ ok ↦ apply_from s' (c ∷ made) chg | err e ↦ undo_changes s' e made ]

  unfoldable pub apply_changes : S → Changes → Kernel (Ret × S)
  apply_changes s chg = apply_from s [] chg

  unfoldable pub ext_next : S → ℕ → ℕ → Ret × Extent
  ext_next s start len = ops.next s start len

  -- the end of ext_insert, with the extent and the changes so far
  unfoldable pub insert_rest : S → Extent → Changes → Kernel (Ret × S)
  insert_rest s ins chg = do chg' ← add_change chg ins true; apply_changes s chg'

  -- the left neighbour, which is looked for at the start that the caller gave
  unfoldable pub insert_left : S → ℕ → Extent → Changes → Kernel (Ret × S)
  insert_left s start ins chg =
      if ltb 0 start
      then (let (ret, found) = ops.next s (sub64 start 1) 1 in
          elim (hard_error ret) [
            | some e ↦ done (err e, s)
            | none ↦
                if is_ok ret && ext_can_merge found ins
                then (do
                  chg' ← add_change chg found false
                  insert_rest s
                      (record {
                        start = found.start;
                        len = add64 ins.len found.len;
                        map = found.map;
                        flags = ins.flags;
                      })
                      chg')
                else insert_rest s ins chg
          ])
      else insert_rest s ins chg

  unfoldable pub ext_insert : S → Extent → Kernel (Ret × S)
  ext_insert s ins =
      let (ret, found) = ops.next s ins.start 1 in
      elim (hard_error ret) [
        | some e ↦ done (err e, s)
        | none ↦
            if not (found.len == 0) && ext_overlap ins found.start found.len
            then done (err einval, s)
            else if not (found.len == 0) && ext_can_merge ins found
            then (do
              chg ← add_change [] found false
              insert_left s ins.start (record ins { len = add64 ins.len found.len }) chg)
            else insert_left s ins.start ins []
      ]

  unfoldable pub ext_remove : S → ℕ → ℕ → Kernel (Ret × S)
  ext_remove s start len =
      let (ret, found) = ops.next s start 1 in
      elim ret [
        | err e ↦ done (err e, s)
        | ok ↦ if not (ext_inside start len found) then done (err einval, s) else do
          c1 ← add_change [] found false
          c2 ← add_change c1 (ext_split_left found start len) true
          c3 ← add_change c2 (ext_split_right found start len) true
          apply_changes s c3
      ]

  -- hands back the extent that was allocated, too
  unfoldable pub ext_alloc : S → ℕ → ℕ → ℕ → Kernel (Ret × Extent × S)
  ext_alloc s start len count =
      let (ret, found) = ops.next s start len in
      elim ret [
        | err e ↦ done (err e, ext_zero, s)
        | ok ↦ do
          c1 ← add_change [] found false
          c2 ←
              if ltb count found.len
              then add_change c1
                  (record {
                    start = add64 found.start count;
                    len = sub64 found.len count;
                    map = ext_map_add found.map count;
                    flags = found.flags;
                  })
                  true
              else done c1
          (r, s') ← apply_changes s c2
          done (alloc_result r found count s')
      ]
