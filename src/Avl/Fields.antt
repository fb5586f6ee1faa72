-- ===== src/Avl/Fields.antt =====
-- The fields of the nodes after scoutfs_avl_relocate.
use scoutfs_kmod_dev.Base.{ℕ, ◌≡◌, ◌≢◌, ◌⊎◌, arith}
use scoutfs_kmod_dev.Avl.Links.{AvlLinks, avl_relocate, set_parent_left_right, set_child_parent}

-- The neighbours of `from` name it, and neither it nor `to` is one of them.
pub record Around (s : AvlLinks) (to from : ℕ) : Type 0 where
  pub some_to : to ≢ 0
  pub some_from : from ≢ 0
  pub other : to ≢ from
  pub up_child :
      s.parent from ≢ 0 → (s.left (s.parent from) ≡ from) ⊎ (s.right (s.parent from) ≡ from)
  pub up_from : s.parent from ≢ from
  pub up_to : s.parent from ≢ to
  pub left_child : s.left from ≢ 0 → s.parent (s.left from) ≡ from
  pub left_from : s.left from ≢ from
  pub left_to : s.left from ≢ to
  pub right_child : s.right from ≢ 0 → s.parent (s.right from) ≡ from
  pub right_from : s.right from ≢ from
  pub right_to : s.right from ≢ to

module _ (s : AvlLinks) (to from : ℕ) (around : Around s to from) where
  open around use {
    some_to, some_from, other, up_child, up_from, up_to, left_child, left_from, left_to,
    right_child, right_from, right_to,
  }

  abbrev s' : AvlLinks
  s' = avl_relocate s to from

  -- A node of which `from` is no child keeps its children.
  pub children_kept :
      (x : ℕ)
      → x ≢ 0
      → x ≢ to
      → s.left x ≢ from
      → s.right x ≢ from
      → (s'.left x ≡ s.left x) × (s'.right x ≡ s.right x) × (s'.height x ≡ s.height x)
  unfolding avl_relocate set_parent_left_right set_child_parent
  children_kept x n o l r = ground arith

  -- A node of which `from` is not the parent keeps its parent.
  pub parent_kept : (x : ℕ) → x ≢ 0 → x ≢ to → s.parent x ≢ from → s'.parent x ≡ s.parent x
  unfolding avl_relocate set_parent_left_right set_child_parent
  parent_kept x n o p = ground arith

  pub child_moved :
      (x : ℕ) → x ≢ 0 → x ≢ to → ((x ≡ s.left from) ⊎ (x ≡ s.right from)) → s'.parent x ≡ to
  unfolding avl_relocate set_parent_left_right set_child_parent
  child_moved x n o c = ground arith

  pub moved :
      (s'.parent to ≡ s.parent from)
      × (s'.left to ≡ s.left from)
      × (s'.right to ≡ s.right from)
      × (s'.height to ≡ s.height from)
  unfolding avl_relocate set_parent_left_right set_child_parent
  moved = ground arith

  -- `to` takes the place of `from` below the parent.
  pub parent_moved :
      (x : ℕ)
      → x ≢ 0
      → x ≡ s.parent from
      → (s'.height x ≡ s.height x)
        × ((s.left x ≡ from → s.right x ≢ from → (s'.left x ≡ to) × (s'.right x ≡ s.right x))
            × (s.left x ≢ from → s.right x ≡ from → (s'.left x ≡ s.left x) × (s'.right x ≡ to)))
  unfolding avl_relocate set_parent_left_right set_child_parent
  parent_moved x n p = ground arith

  pub root_moved : s.parent from ≡ 0 → s'.root ≡ to
  unfolding avl_relocate set_parent_left_right set_child_parent
  root_moved p = ground arith

  pub root_kept : s.parent from ≢ 0 → s'.root ≡ s.root
  unfolding avl_relocate set_parent_left_right set_child_parent
  root_kept p = ground arith
