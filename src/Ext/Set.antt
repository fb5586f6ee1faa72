-- ===== src/Ext/Set.antt =====
-- scoutfs_ext_set of ext.c: the map and the flags of a region are set, its edges are kept and its
-- neighbours merged.
use scoutfs_kmod_dev.Base.{
  ℕ, ltb, add64, sub64, Ret, hard_error, is_ok, einval, Kernel, true, false, ◌>>=◌, ◌==◌, ◌||◌,
  ◌&&◌, not, if◌then◌else◌, none, some, done, err, [],
}
use scoutfs_kmod_dev.Ext.{
  Extent, ExtOps, Changes, ext_overlap, ext_inside, add_change, ext_can_merge, ext_split_left,
  apply_changes, ext_split_right, ext_zero,
}

module _ {S : Type 0} (ops : ExtOps S) where
  -- the end of ext_set, with the extent to set and the changes so far
  unfoldable pub set_rest : S → Extent → Changes → Kernel (Ret × S)
  set_rest s set chg =
      if not (set.flags == 0) || not (set.map == 0)
      then (do chg' ← add_change chg set true; apply_changes ops s chg')
      else apply_changes ops s chg

  unfoldable pub set_right : S → ℕ → ℕ → Extent → Extent → Changes → Kernel (Ret × S)
  set_right s start len right set chg =
      if not (right.len == 0)
      then (do chg' ← add_change chg right true; set_rest s set chg')
      else (let (ret, found) = ops.next s (add64 start len) 1 in
          elim (hard_error ret) [
            | some e ↦ done (err e, s)
            | none ↦
                if is_ok ret && ext_can_merge set found
                then (do
                  chg' ← add_change chg found false
                  set_rest s (record set { len = add64 set.len found.len }) chg')
                else set_rest s set chg
          ])

  unfoldable pub set_left : S → Extent → Extent → Extent → Changes → Kernel (Ret × S)
  set_left s left right set chg =
      if not (left.len == 0)
      then (do chg' ← add_change chg left true; set_right s set.start set.len right set chg')
      else if ltb 0 set.start
      then (let (ret, found) = ops.next s (sub64 set.start 1) 1 in
          elim (hard_error ret) [
            | some e ↦ done (err e, s)
            | none ↦
                if is_ok ret && ext_can_merge found set
                then (do
                  chg' ← add_change chg found false
                  set_right s set.start set.len right
                      (record {
                        start = found.start;
                        len = add64 set.len found.len;
                        map = found.map;
                        flags = set.flags;
                      })
                      chg')
                else set_right s set.start set.len right set chg
          ])
      else set_right s set.start set.len right set chg

  unfoldable pub ext_set : S → Extent → Kernel (Ret × S)
  ext_set s set =
      let (ret, found) = ops.next s set.start 1 in
      elim (hard_error ret) [
        | some e ↦ done (err e, s)
        | none ↦
            if is_ok ret && ext_overlap found set.start set.len
            then (if not (ext_inside set.start set.len found) then done (err einval, s) else do
              chg ← add_change [] found false
              set_left s (ext_split_left found set.start set.len)
                  (ext_split_right found set.start set.len) set chg)
            else set_left s ext_zero ext_zero set []
      ]
