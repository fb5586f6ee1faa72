-- ===== src/Avl/Relocate.antt =====
-- scoutfs_moved_to.
use scoutfs_kmod_dev.Base.{ℕ, ◌≡◌, ◌∷◌, ◌++◌, refl, arith}
use scoutfs_kmod_dev.Avl.{
  Avl, node, Above, top, from_left, from_right, node_height, whole, with_container, moved_to, items,
  before, after,
}
use scoutfs_kmod_dev.Avl.Order.{items-whole}
use scoutfs_kmod_dev.Avl.Balance.{IsAvl}

module _ {A : Type 0} where
  -- A balanced subtree takes the place of another of the same height.
  whole-IsAvl :
      (up : Above A) (t u : Avl A)
      → node_height u ≡ node_height t
      → (IsAvl t → IsAvl u)
      → IsAvl (whole up t)
      → IsAvl (whole up u)
  unfolding node_height
  whole-IsAvl top t u e f h = f h
  whole-IsAvl (from_left up x k r) t u e f h =
      whole-IsAvl up (node t x k r) (node u x k r) refl
        (λ a. (omega (arith, a.0, e), omega (arith, a.1, e), omega (arith, a.2, e), f a.3, a.4)) h
  whole-IsAvl (from_right l x k up) t u e f h =
      whole-IsAvl up (node l x k t) (node l x k u) refl
        (λ a. (omega (arith, a.0, e), omega (arith, a.1, e), omega (arith, a.2, e), a.3, f a.4)) h

  -- The node's new container stands where the old one stood between the other items, and a balanced
  -- tree stays one.
  pub moved_to-Keeps :
      (to : A) (up : Above A) (l : Avl A) (x : A) (h : ℕ) (r : Avl A)
      → (items (moved_to to up (node l x h r)) ≡ before up ++ (items l ++ to ∷ items r) ++ after up)
        × (IsAvl (whole up (node l x h r)) → IsAvl (moved_to to up (node l x h r)))
  unfolding moved_to with_container node_height
  moved_to-Keeps to up l x h r =
      (items-whole up (node l to h r), whole-IsAvl up (node l x h r) (node l to h r) refl (λ a. a))
