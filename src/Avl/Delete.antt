-- ===== src/Avl/Delete.antt =====
-- scoutfs_avl_delete.
use scoutfs_kmod_dev.Base.Rules.{if_rule}
use scoutfs_kmod_dev.Avl.Height.{offsets, height-bound}
use scoutfs_kmod_dev.Base.Lists.{length}
use scoutfs_kmod_dev.Avl.Walk.{Leftmost, leftmost-Leftmost}
use scoutfs_kmod_dev.Base.{
  ℕ, ◌≡◌, ◌++◌, arith, refl, ◌∙◌, true, ◌||◌, ◌<◌, ap, subst, sym, ◌∷◌, [], false,
}
use scoutfs_kmod_dev.Avl.{
  Avl, nil, node, Above, from_left, leftmost, avl_splice, node_height, items, before, after, is_nil,
  with_container, Place, from_right, rebalance, swap_with_successor, avl_delete, [], whole, top,
  false,
}
use scoutfs_kmod_dev.Avl.Order.{items-rebalance, list_laws}
use scoutfs_kmod_dev.Avl.Balance.{IsAvl}
use scoutfs_kmod_dev.Avl.Rebalance.{OnPath, rebalance-IsAvl, whole-OnPath}

module _ {A : Type 0} where
  -- The tree has lost the item at a pointer whose node has the children `l` and `r`.
  pub record Deletes (up : Above A) (l r : Avl A) (t' : Avl A) : Type 0 where
    pub rest : items t' ≡ before up ++ (items l ++ (items r ++ after up))
    pub balanced : IsAvl t'

  -- the one child of a node, or none, comes up
  splice-Deletes :
      (up : Above A) (l : Avl A) (x : A) (h : ℕ) (r : Avl A)
      → (is_nil l || is_nil r) ≡ true
      → IsAvl (node l x h r)
      → OnPath up h
      → Deletes up l r (avl_splice up (node l x h r))
  unfolding avl_splice node_height
  splice-Deletes up nil x h r e a p = record {
    rest = items-rebalance up r ∙ simp list_laws;
    balanced = rebalance-IsAvl up r h p a.4 (omega (arith, a)) (omega (arith, a));
  }
  splice-Deletes up (node ll y k lr) x h nil e a p = record {
    rest = items-rebalance up (node ll y k lr) ∙ simp list_laws;
    balanced = rebalance-IsAvl up (node ll y k lr) h p a.3 (omega (arith, a)) (omega (arith, a));
  }
  splice-Deletes up (node ll y k lr) x h (node rl z m rr) e a p = cc

  leftmost_tree : (up down : Above A) (t : Avl A) → (leftmost up t).tree ≡ (leftmost down t).tree
  unfolding leftmost
  leftmost_tree up down nil = refl
  leftmost_tree up down (node nil x h r) = refl
  leftmost_tree up down (node (node ll y k lr) x h r) =
      leftmost_tree (from_left up x h r) (from_left down x h r) (node ll y k lr)

  -- the successor has taken the place of the deleted item
  kept :
      (up : Above A) (l : Avl A) (s : A) (h : ℕ) (r : Avl A) (p : Place A)
      (w : Leftmost (from_right l s h up) r p)
      → w.first ≡ s
      → before p.above ++ items w.right ++ after p.above
        ≡ before up ++ (items l ++ (items r ++ after up))
  kept up l s h r p w e =
      let regroup : (before up ++ items l ++ s ∷ []) ++ items w.right ++ after p.above
          ≡ before up ++ (items l ++ (s ∷ items w.right ++ after p.above)) =
        simp list_laws in
      ap (λ xs. xs ++ items w.right ++ after p.above) w.none_before
      ∙ regroup
      ∙ ap (λ xs. before up ++ (items l ++ xs))
          (ap (λ y. y ∷ items w.right ++ after p.above) (sym e) ∙ w.rest)

  splice_right-Deletes :
      (up : Above A) (l : Avl A) (x s : A) (h : ℕ) (r : Avl A) (p : Place A)
      → IsAvl (node l x h r)
      → h < 240
      → OnPath up h
      → (w : Leftmost (from_right l s h up) r p) → w.first ≡ s
      → Deletes up l r (avl_splice p.above (with_container x p.tree))
  unfolding avl_splice with_container node_height
  splice_right-Deletes up l x s h r p a b path w e =
      let (q, tree) = w.on_path a.4 (omega (arith, a.0, b)) (a.0, a.2, a.1, a.3, b, path) in
      let run : avl_splice p.above (with_container x p.tree) ≡ rebalance p.above w.right =
        ap (λ (t : Avl A). avl_splice p.above (with_container x t)) w.is_node in
      subst (Deletes up l r) (sym run) (record {
        rest = items-rebalance p.above w.right ∙ kept up l s h r p w e;
        balanced =
            rebalance-IsAvl p.above w.right w.height q tree.4 (omega (arith, tree))
              (omega (arith, tree));
      })

  first_of : {l l' r r' : Avl A} {x x' : A} {h h' : ℕ} → node l x h r ≡ node l' x' h' r' → x' ≡ x
  first_of e = cc

  swap_run :
      (up : Above A) (l : Avl A) (x : A) (h : ℕ) (r : Avl A) (s : A) (sh : ℕ) (sr : Avl A)
      → (leftmost top r).tree ≡ node nil s sh sr
      → swap_with_successor up l x h r ≡ record {
        above = (leftmost (from_right l s h up) r).above;
        tree = with_container x (leftmost (from_right l s h up) r).tree;
      }
  unfolding swap_with_successor
  swap_run up l x h r s sh sr e = ground (arith, e)

  swap-Deletes :
      (up : Above A) (l : Avl A) (x : A) (h : ℕ) (rl : Avl A) (y : A) (k : ℕ) (rr : Avl A)
      → IsAvl (node l x h (node rl y k rr))
      → h < 240
      → OnPath up h
      → Deletes up l (node rl y k rr) (
          avl_splice
            (swap_with_successor up l x h (node rl y k rr)).above
            (swap_with_successor up l x h (node rl y k rr)).tree)
  swap-Deletes up l x h rl y k rr a b path =
      let r = node rl y k rr in
      let first = leftmost-Leftmost top rl y k rr in
      let w = leftmost-Leftmost (from_right l first.first h up) rl y k rr in
      let same : node nil first.first first.height first.right ≡ node nil w.first w.height w.right =
        sym first.is_node ∙ leftmost_tree top (from_right l first.first h up) r ∙ w.is_node in
      subst (λ (p : Place A). Deletes up l r (avl_splice p.above p.tree))
        (sym (swap_run up l x h r first.first first.height first.right first.is_node))
        (splice_right-Deletes up l x first.first h r (leftmost (from_right l first.first h up) r) a
          b path w (first_of same))

  swap_case :
      (up : Above A) (l : Avl A) (x : A) (h : ℕ) (r : Avl A)
      → (is_nil l || is_nil r) ≡ false
      → IsAvl (node l x h r)
      → h < 240
      → OnPath up h
      → Deletes up l r
          (avl_splice (swap_with_successor up l x h r).above (swap_with_successor up l x h r).tree)
  swap_case up l x h nil e a b path = absurd (ground (arith, e))
  swap_case up l x h (node rl y k rr) e a b path = swap-Deletes up l x h rl y k rr a b path

  -- In a balanced tree of fewer than 2^16 items scoutfs_avl_delete of a node leaves the other items
  -- in their order, in a balanced tree.
  pub avl_delete-Deletes :
      (up : Above A) (l : Avl A) (x : A) (h : ℕ) (r : Avl A)
      → IsAvl (whole up (node l x h r))
      → length (items (whole up (node l x h r))) < offsets
      → Deletes up l r (avl_delete up (node l x h r))
  unfolding avl_delete node_height
  avl_delete-Deletes up l x h r avl small =
      let (a, path, b) =
        whole-OnPath up (node l x h r) avl (omega (arith, height-bound _ avl small)) in
      if_rule (Deletes up l r) (is_nil l || is_nil r) _ _ (λ e. splice-Deletes up l x h r e a path)
        (λ e. swap_case up l x h r e a b path)
