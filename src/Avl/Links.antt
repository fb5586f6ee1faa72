-- ===== src/Avl/Links.antt =====
-- The links between the nodes of avl.c as they stand in a block, and scoutfs_avl_relocate, which
-- moves them to another node.
use scoutfs_kmod_dev.Base.{ℕ, ◌==◌, ◌≡◌, ◌≢◌, if◌then◌else◌}
use scoutfs_kmod_dev.Avl.{Avl, nil, node, Above, top, from_left, from_right}

-- The offset in the root, and the fields of the nodes by the offset of the node; 0 is the null
-- pointer.
pub record AvlLinks : Type 0 where
  pub root : ℕ
  pub parent : ℕ → ℕ
  pub left : ℕ → ℕ
  pub right : ℕ → ℕ
  pub height : ℕ → ℕ

-- The field of one node is set.
abbrev pub put : (ℕ → ℕ) → ℕ → ℕ → ℕ → ℕ
put field off v off' = if off' == off then v else field off'

unfoldable pub set_parent_left_right : AvlLinks → ℕ → ℕ → ℕ → AvlLinks
set_parent_left_right s parent old new =
    if parent == 0
    then record s { root = new }
    else if s.left parent == old
    then record s { left = put s.left parent new }
    else record s { right = put s.right parent new }

-- the child's link to its parent is set, where there is a child
unfoldable pub set_child_parent : AvlLinks → ℕ → ℕ → AvlLinks
set_child_parent s child to = if child == 0 then s else record s { parent = put s.parent child to }

unfoldable pub avl_relocate : AvlLinks → ℕ → ℕ → AvlLinks
avl_relocate s to from =
    let parent = s.parent from in
    let left = s.left from in
    let right = s.right from in
    let s1 = set_parent_left_right s parent from to in
    let s2 = record s1 { parent = put s1.parent to (s1.parent from) } in
    let s3 = record s2 { left = put s2.left to (s2.left from) } in
    let s4 = set_child_parent s3 left to in
    let s5 = record s4 { right = put s4.right to (s4.right from) } in
    let s6 = set_child_parent s5 right to in
    record s6 { height = put s6.height to (s6.height from) }

-- the offset of a subtree's first node
abbrev pub offset : Avl ℕ → ℕ
offset nil = 0
offset (node _ x _ _) = x

-- The links of the nodes of a subtree, whose parent is `up`, are those of the tree of offsets.
abbrev pub Linked : AvlLinks → ℕ → Avl ℕ → Type 0
Linked s up nil = Unit
Linked s up (node l x h r) =
    (x ≢ 0)
    × ((s.parent x ≡ up) × (s.left x ≡ offset l) × (s.right x ≡ offset r) × (s.height x ≡ h))
    × Linked s x l
    × Linked s x r

abbrev pub Represents : AvlLinks → Avl ℕ → Type 0
Represents s t = (s.root ≡ offset t) × Linked s 0 t

-- The offset is none of the subtree.
abbrev pub NotIn : ℕ → Avl ℕ → Type 0
NotIn off nil = Unit
NotIn off (node l x _ r) = (x ≢ off) × NotIn off l × NotIn off r

-- The offset is none of the parents, nor of the subtrees below them on the other side.
abbrev pub NotAbove : ℕ → Above ℕ → Type 0
NotAbove off top = Unit
NotAbove off (from_left up x _ r) = (x ≢ off) × NotIn off r × NotAbove off up
NotAbove off (from_right l x _ up) = (x ≢ off) × NotIn off l × NotAbove off up
