-- ===== src/Avl.antt =====
-- avl.c: the AVL tree that indexes the items of a btree block. The links between nodes by offsets
-- are an inductive tree, a pointer to a node is the subtree with the path up to the root (the
-- parents' links), and a walk towards the root is a recursion on that path.
pub mod Order
pub mod Balance
pub mod Height
pub mod Rebalance
pub mod Search
pub mod Insert
pub mod Walk
pub mod Delete
pub mod Relocate
pub mod Links
pub mod Linked
pub mod Fields
pub mod Relink
mod Tests
use scoutfs_kmod_dev.Base.{
  List, [], ◌∷◌, ◌++◌, ℕ, ◌+◌, Bool, true, false, ◌||◌, ltb, if◌then◌else◌, u8, max, Ordering,
  Option, none, some,
}

-- struct scoutfs_avl_node in its container `A`: the left child, the container, the height and the
-- right child
pub data Avl (A : Type 0) : Type 0 where
  nil : Avl A
  node : Avl A → A → ℕ → Avl A → Avl A

-- The parents of a node, the next one first, each with its other child.
pub data Above (A : Type 0) : Type 0 where
  top : Above A
  from_left : Above A → A → ℕ → Avl A → Above A
  from_right : Avl A → A → ℕ → Above A → Above A

-- a pointer into the tree
pub record Place (A : Type 0) : Type 0 where
  pub above : Above A
  pub tree : Avl A

abbrev pub is_nil : {A : Type 0} → Avl A → Bool
is_nil nil = true
is_nil (node _ _ _ _) = false

module _ {A : Type 0} where
  unfoldable pub node_height : Avl A → ℕ
  node_height nil = 0
  node_height (node _ _ h _) = h

  unfoldable pub set_height : Avl A → Avl A
  set_height nil = nil
  set_height (node l x _ r) = node l x (u8 (1 + max (node_height l) (node_height r))) r

  -- node_balance is `right - left` as an int; these are its tests against `by` and `-by`.
  unfoldable pub right_heavy : ℕ → Avl A → Bool
  right_heavy by nil = false
  right_heavy by (node l _ _ r) = ltb (node_height l + by) (node_height r)

  unfoldable pub left_heavy : ℕ → Avl A → Bool
  left_heavy by nil = false
  left_heavy by (node l _ _ r) = ltb (node_height r + by) (node_height l)

  -- Called only where the child that goes up is there.
  unfoldable pub rotate_right : Avl A → Avl A
  rotate_right (node (node a b hb c) d hd e) = set_height (node a b hb (set_height (node c d hd e)))
  rotate_right t = t

  unfoldable pub rotate_left : Avl A → Avl A
  rotate_left (node a b hb (node c d hd e)) = set_height (node (set_height (node a b hb c)) d hd e)
  rotate_left t = t

  unfoldable pub rotate_imbalance : Avl A → Avl A
  rotate_imbalance nil = nil
  rotate_imbalance (node l x h r) =
      if right_heavy 1 (node l x h r)
      then rotate_left (node l x h (if left_heavy 0 r then rotate_right r else r))
      else if left_heavy 1 (node l x h r)
      then rotate_right (node (if right_heavy 0 l then rotate_left l else l) x h r)
      else node l x h r

  -- The loop over the parents, from a subtree that has changed.
  unfoldable pub rebalance : Above A → Avl A → Avl A
  rebalance top t = t
  rebalance (from_left up x h r) t = rebalance up (rotate_imbalance (set_height (node t x h r)))
  rebalance (from_right l x h up) t = rebalance up (rotate_imbalance (set_height (node l x h t)))

  unfoldable pub insert_below : Above A → Avl A → A → Ordering → Avl A
  insert_below up nil ins cmp = rebalance up nil
  insert_below up (node l x h r) ins cmp =
      let new = set_height (node nil ins 0 nil) in
      elim cmp [
        | Ordering.lt ↦ rebalance (from_left up x h r) new
        | _ ↦ rebalance (from_right l x h up) new
      ]

  -- The new node is linked below `parent`, on the side of the search's last comparison; there is
  -- none in an empty tree.
  unfoldable pub avl_insert : Option (Place A) → A → Ordering → Avl A
  avl_insert none ins cmp = set_height (node nil ins 0 nil)
  avl_insert (some parent) ins cmp = insert_below parent.above parent.tree ins cmp

  -- the walk to the left, with the path that it goes
  unfoldable pub leftmost : Above A → Avl A → Place A
  leftmost up nil = record { above = up; tree = nil }
  leftmost up (node l x h r) =
      let below = leftmost (from_left up x h r) l in
      if is_nil l then record { above = up; tree = node l x h r } else below

  unfoldable pub rightmost : Above A → Avl A → Place A
  rightmost up nil = record { above = up; tree = nil }
  rightmost up (node l x h r) =
      let below = rightmost (from_right l x h up) r in
      if is_nil r then record { above = up; tree = node l x h r } else below

  unfoldable pub avl_first : Avl A → Place A
  avl_first t = leftmost top t

  unfoldable pub avl_last : Avl A → Place A
  avl_last t = rightmost top t

  -- the loop of scoutfs_avl_next over parents that the walk comes to from the right
  unfoldable pub climb_right : Above A → Avl A → Option (Place A)
  climb_right top t = none
  climb_right (from_left up x h r) t = some (record { above = up; tree = node t x h r })
  climb_right (from_right l x h up) t = climb_right up (node l x h t)

  unfoldable pub climb_left : Above A → Avl A → Option (Place A)
  climb_left top t = none
  climb_left (from_left up x h r) t = climb_left up (node t x h r)
  climb_left (from_right l x h up) t = some (record { above = up; tree = node l x h t })

  -- A null pointer has no neighbours.
  unfoldable pub avl_next : Above A → Avl A → Option (Place A)
  avl_next up nil = none
  avl_next up (node l x h r) =
      if is_nil r then climb_right up (node l x h r) else some (leftmost (from_right l x h up) r)

  unfoldable pub avl_prev : Above A → Avl A → Option (Place A)
  avl_prev up nil = none
  avl_prev up (node l x h r) =
      if is_nil l then climb_left up (node l x h r) else some (rightmost (from_left up x h r) l)

  -- the same node of the tree in another container
  unfoldable pub with_container : A → Avl A → Avl A
  with_container to nil = nil
  with_container to (node l _ h r) = node l to h r

  -- The node's container goes where its successor is, and the other way round; the heights stay.
  unfoldable pub swap_with_successor : Above A → Avl A → A → ℕ → Avl A → Place A
  swap_with_successor up l x h r = elim (leftmost top r).tree [
    | nil ↦ record { above = up; tree = node l x h r }
    | node _ succ _ _ ↦
        let place = leftmost (from_right l succ h up) r in
        record { above = place.above; tree = with_container x place.tree }
  ]

  -- the node has one child at most, which takes its place
  unfoldable pub avl_splice : Above A → Avl A → Avl A
  avl_splice up nil = rebalance up nil
  avl_splice up (node l _ _ r) = rebalance up (if is_nil l then r else l)

  unfoldable pub avl_delete : Above A → Avl A → Avl A
  avl_delete up nil = rebalance up nil
  avl_delete up (node l x h r) =
      let swapped = swap_with_successor up l x h r in
      if is_nil l || is_nil r
      then avl_splice up (node l x h r)
      else avl_splice swapped.above swapped.tree

  -- the whole tree that a pointer points into
  abbrev pub whole : Above A → Avl A → Avl A
  whole top t = t
  whole (from_left up x h r) t = whole up (node t x h r)
  whole (from_right l x h up) t = whole up (node l x h t)

  -- what scoutfs_avl_relocate makes of the tree whose links it moves (Avl/Links)
  unfoldable pub moved_to : A → Above A → Avl A → Avl A
  moved_to to up t = whole up (with_container to t)

abbrev pub items : {A : Type 0} → Avl A → List A
items nil = []
items (node l x _ r) = items l ++ x ∷ items r

-- the items to the left and to the right of a pointer's subtree
abbrev pub before : {A : Type 0} → Above A → List A
before top = []
before (from_left up _ _ _) = before up
before (from_right l x _ up) = before up ++ items l ++ x ∷ []

abbrev pub after : {A : Type 0} → Above A → List A
after top = []
after (from_left up x _ r) = x ∷ items r ++ after up
after (from_right _ _ _ up) = after up

-- What scoutfs_avl_search hands back: the node, and for a node that is not there the last
-- comparison, the last node, and the nodes around the missing one.
pub record SearchResult (A : Type 0) : Type 0 where
  pub found : Option (Place A)
  pub cmp : Ordering
  pub par : Option (Place A)
  pub next : Option (Place A)
  pub prev : Option (Place A)

module _ {A : Type 0} (cmp_to : A → Ordering) where
  unfoldable pub search_from : Above A → Avl A → SearchResult A → SearchResult A
  search_from up nil s = s
  search_from up (node l x h r) s =
      let here = some (record { above = up; tree = node l x h r }) in
      let left =
        search_from (from_left up x h r) l
          (record s { cmp = Ordering.lt; par = here; next = here }) in
      let right =
        search_from (from_right l x h up) r
          (record s { cmp = Ordering.gt; par = here; prev = here }) in
      elim (cmp_to x) [
        | Ordering.lt ↦ left
        | Ordering.gt ↦ right
        | Ordering.eq ↦ record s { found = here; cmp = Ordering.eq; par = here }
      ]

  unfoldable pub avl_search : Avl A → SearchResult A
  avl_search t =
      search_from top t
        (record { found = none; cmp = Ordering.lt; par = none; next = none; prev = none })
