-- ===== src/Ext/Remove.antt =====
-- ext_remove and ext_alloc take blocks out of what the store's extents say.
use mathlib.Core.Bool.{false≢true}
use scoutfs_kmod_dev.Base.{
  ◌>>=◌, not, if◌then◌else◌, einval, ℕ, ◌+◌, ◌≤◌, ◌<◌, ◌≡◌, ◌↔◌, Bool, true, false, refl, arith,
  Ret, err, Kernel, done, [], u64_size, Errno, inl, inr, ok, ◌⊎◌, ltb, sym, ◌∙◌, ap,
}
use scoutfs_kmod_dev.Ext.{
  Extent, ExtOps, ext_inside, ext_split_left, ext_split_right, ext_remove, add_change,
  apply_changes,
}
use scoutfs_kmod_dev.Ext.Blocks.{Within, ext_inside_iff}
use scoutfs_kmod_dev.Ext.Store.{ExtSet, remove_from, IsExtSet, IsExtStore, Maps}
use scoutfs_kmod_dev.Ext.Collected.{
  OpFailed, Collected-nil, Gives, add_change_remove, add_change_piece, apply_changes-Gives,
}
use scoutfs_kmod_dev.Base.Rules.{if_rule}
use scoutfs_kmod_dev.Ext.Neighbour.{found_rule}
use scoutfs_kmod_dev.Ext.Pending.{remove_from-IsExtSet, Pending-new}
use scoutfs_kmod_dev.Ext.Pieces.{
  with_piece, left-Pending, right-Pending, Maps-split, with_piece-IsExtSet,
}

-- One member held the whole range; the set `after` says nothing of the range and what `before` says
-- of every other block, and its members share no block.
pub record Cuts (unmapped : ℕ → Bool) (before : ExtSet) (start len : ℕ) (after : ExtSet)
    : Type 0 where
  pub maps : (b m f : ℕ) → Maps after b m f ↔ (Maps before b m f × ¬ (Within start len b))
  pub members : IsExtSet unmapped after
  pub whole : (x : Extent) × (before x ≡ true) × (x.start ≤ start) × (start + len ≤ x.start + x.len)

-- Why ext_remove fails: a change failed on the way to its result, `next` failed, or no member holds
-- the whole range.
abbrev pub RemoveFails :
    {S : Type 0} → ExtOps S → (S → ExtSet) → (ℕ → Bool) → S → ℕ → ℕ → Errno → Type 0
RemoveFails ops holds unmapped s start len r =
    OpFailed ops holds s (Cuts unmapped (holds s) start len) r
    ⊎ ((ops.next s start 1).0 ≡ err r)
    ⊎ ((r ≡ einval)
        × ((x : Extent) → holds s x ≡ true → x.start ≤ start → start + len ≤ x.start + x.len → ⊥))

-- A member without its blocks in a range inside it: its two pieces take its place.
pub split-Cuts :
    (unmapped : ℕ → Bool) (H : ExtSet) (members : IsExtSet unmapped H) (found : Extent)
    (held : H found ≡ true) (start len : ℕ) (pos : 0 < len) (bound : start + len < u64_size)
    (inside : (found.start ≤ start) × (start + len ≤ found.start + found.len))
    → Cuts unmapped H start len (
        with_piece
          (with_piece (remove_from H found) (ext_split_left found start len))
          (ext_split_right found start len))
split-Cuts unmapped H members found held start len pos bound inside = record {
  maps = Maps-split unmapped H members found held start len pos bound inside;
  members =
      with_piece-IsExtSet unmapped
        (with_piece (remove_from H found) (ext_split_left found start len))
        (ext_split_right found start len)
        (with_piece-IsExtSet unmapped (remove_from H found) (ext_split_left found start len)
          (remove_from-IsExtSet unmapped H found members)
          (left-Pending unmapped H members found held start len pos bound inside))
        (right-Pending unmapped H members found held start len pos bound inside);
  whole = (found, held, inside.0, inside.1);
}

module _ {S : Type 0} (ops : ExtOps S) (holds : S → ExtSet) (store : IsExtStore ops holds)
    (unmapped : ℕ → Bool) (s : S) (members : IsExtSet unmapped (holds s)) (start len : ℕ)
    (pos : 0 < len) (bound : start + len < u64_size) where
  abbrev Answer : Kernel (Ret × S) → Type 0
  Answer =
      Gives ops holds s (RemoveFails ops holds unmapped s start len)
        (Cuts unmapped (holds s) start len)

  not-false : (b : Bool) → not b ≡ false → b ≡ true
  not-false b h = ground arith

  not-true : (b : Bool) → not b ≡ true → b ≡ false
  not-true b h = ground arith

  abbrev take_out : Extent → Kernel (Ret × S)
  take_out found = do
    c1 ← add_change [] found false
    c2 ← add_change c1 (ext_split_left found start len) true
    c3 ← add_change c2 (ext_split_right found start len) true
    apply_changes ops s c3

  cut :
      (found : Extent)
      → holds s found ≡ true
      → ext_inside start len found ≡ true
      → Answer (take_out found)
  cut found held test =
      let fits = members.fits found held in
      let inside = (ext_inside_iff found start len fits pos bound).0 test in
      let left = ext_split_left found start len in
      let right = ext_split_right found start len in
      let out = remove_from (holds s) found in
      add_change_remove Answer (holds s) (holds s) [] found _ (omega arith)
        (omega (arith, fits.some_blocks)) held (Collected-nil (holds s))
        λ c1 col1 len1.
          add_change_piece Answer (holds s) out c1 left _ (omega (arith, len1))
            (λ n.
              Pending-new unmapped out left
                (left-Pending unmapped (holds s) members found held start len pos bound inside n))
            col1
            λ c2 col2 len2.
              add_change_piece Answer (holds s) (with_piece out left) c2 right _
                (omega (arith, len1, len2))
                (λ n. Pending-new unmapped (with_piece out left) right (
                  right-Pending unmapped (holds s) members found held start len pos bound inside n))
                col2
                λ c3 col3 len3.
                  apply_changes-Gives ops holds store s c3 (with_piece (with_piece out left) right)
                    (RemoveFails ops holds unmapped s start len) (Cuts unmapped (holds s) start len)
                    col3 (λ r why. inl why)
                    (split-Cuts unmapped (holds s) members found held start len pos bound inside)

  none_whole :
      (ops.next s start 1).0 ≡ ok
      → ext_inside start len (ops.next s start 1).1 ≡ false
      → (x : Extent) → holds s x ≡ true
      → x.start ≤ start
      → start + len ≤ x.start + x.len
      → ⊥
  none_whole q test x held i j =
      let n = (ops.next s start 1).1 in
      let (n_held, after, first) = store.next_ok s start q in
      let fits = members.fits n n_held in
      let past = first x held (omega (arith, pos)) in
      let same =
        members.apart x n (if ltb start n.start then n.start else start) held n_held (ground arith)
          (ground (arith, fits)) (ground arith) (ground (arith, fits)) in
      false≢true (
        sym test
        ∙ (ext_inside_iff n start len fits pos bound).1 (
          omega (arith, ap (λ (z : Extent). z.start) same),
          omega (arith, ap (λ (z : Extent). z.start + z.len) same),
        ))

  -- On a store whose extents share no block and whose flags tell which of them are unmapped,
  -- ext_remove of at least one block below the end of the blocks either succeeds, and then one
  -- extent held the whole range, no block of the range is mapped any more, every other block is
  -- mapped as before, and the extents share no block and the flags tell the same again; or it
  -- fails, the set of extents is as it was, and the error is one of the changes that lead to such a
  -- result, or of `next` at the start of the range, or is einval and no extent held the whole
  -- range. A BUG_ON fires only where such changes, made in order from the store, came to one that
  -- fails, and taking back those before it came to one that fails too.
  pub ext_remove-Cuts : Answer (ext_remove ops s start len)
  unfolding ext_remove
  ext_remove-Cuts =
      found_rule ops holds store Answer s start
        (λ found. if not (ext_inside start len found) then done (err einval, s) else take_out found)
        (λ r q. (refl, inr (inl q)))
        (λ q.
          if_rule Answer _ _ _ (λ t. (refl, inr (inr (refl, none_whole q (not-true _ t)))))
            (λ t. cut _ (store.next_ok s start q).0 (not-false _ t)))
