-- ===== src/Avl/Rebalance.antt =====
-- The loop towards the root restores the balance where one subtree's height has changed by one.
use scoutfs_kmod_dev.Base.{ℕ, ◌+◌, ◌≤◌, ◌<◌, ◌≡◌, max, u8, refl, arith, subst, sym}
use scoutfs_kmod_dev.Avl.{
  Avl, node, Above, top, from_left, from_right, node_height, set_height, rotate_imbalance,
  rebalance, whole,
}
use scoutfs_kmod_dev.Avl.Balance.{IsAvl, Joins, rotate_imbalance-Joins}

-- The parents of a subtree of height `k` are balanced and have their heights, none of them near
-- the end of a byte.
abbrev pub OnPath : {A : Type 0} → Above A → ℕ → Type 0
OnPath top k = Unit
OnPath (from_left up x h r) k =
    (h ≡ 1 + max k (node_height r))
    × (k ≤ node_height r + 1)
    × (node_height r ≤ k + 1)
    × IsAvl r
    × (h < 240)
    × OnPath up h
OnPath (from_right l x h up) k =
    (h ≡ 1 + max (node_height l) k)
    × (k ≤ node_height l + 1)
    × (node_height l ≤ k + 1)
    × IsAvl l
    × (h < 240)
    × OnPath up h

module _ {A : Type 0} where
  -- the subtree and the parents of a pointer into a balanced tree
  pub whole-OnPath :
      (up : Above A) (t : Avl A)
      → IsAvl (whole up t)
      → node_height (whole up t) < 240
      → IsAvl t × OnPath up (node_height t) × (node_height t < 240)
  unfolding node_height
  whole-OnPath top t h b = (h, tt, b)
  whole-OnPath (from_left up x k r) t h b =
      let (a, p, c) = whole-OnPath up (node t x k r) h b in
      (a.3, (a.0, a.1, a.2, a.4, c, p), omega (arith, a.0, c))
  whole-OnPath (from_right l x k up) t h b =
      let (a, p, c) = whole-OnPath up (node l x k t) h b in
      (a.4, (a.0, a.2, a.1, a.3, c, p), omega (arith, a.0, c))

  set_height-node :
      (l : Avl A) (x : A) (h : ℕ) (r : Avl A)
      → 1 + max (node_height l) (node_height r) < 250
      → set_height (node l x h r) ≡ node l x (1 + max (node_height l) (node_height r)) r
  unfolding set_height u8
  set_height-node l x h r b = ground (arith, b)

  step :
      (l : Avl A) (x : A) (h : ℕ) (r : Avl A)
      → IsAvl l
      → IsAvl r
      → node_height l ≤ node_height r + 2
      → node_height r ≤ node_height l + 2
      → 1 + max (node_height l) (node_height r) < 250
      → Joins (node_height l) (node_height r) (rotate_imbalance (set_height (node l x h r)))
  step l x h r hl hr p q b =
      subst (λ (t : Avl A). Joins (node_height l) (node_height r) (rotate_imbalance t))
        (sym (set_height-node l x h r b)) (rotate_imbalance-Joins l x _ r hl hr refl p q b)

  -- A balanced subtree whose height differs by one at most from the one that was there.
  pub rebalance-IsAvl :
      (up : Above A) (t : Avl A) (k : ℕ)
      → OnPath up k
      → IsAvl t
      → node_height t ≤ k + 1
      → k ≤ node_height t + 1
      → IsAvl (rebalance up t)
  unfolding rebalance
  rebalance-IsAvl top t k p h i j = h
  rebalance-IsAvl (from_left up x n r) t k p h i j =
      let s =
        step t x n r h p.3 (omega (arith, p, i)) (omega (arith, p, j)) (omega (arith, p, i)) in
      rebalance-IsAvl up _ n p.5 s.0 (ground (arith, s.1, s.2, s.3, p, i, j))
        (ground (arith, s.1, s.2, s.3, p, i, j))
  rebalance-IsAvl (from_right l x n up) t k p h i j =
      let s =
        step l x n t p.3 h (omega (arith, p, j)) (omega (arith, p, i)) (omega (arith, p, i)) in
      rebalance-IsAvl up _ n p.5 s.0 (ground (arith, s.1, s.2, s.3, p, i, j))
        (ground (arith, s.1, s.2, s.3, p, i, j))
