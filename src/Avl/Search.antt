-- ===== src/Avl/Search.antt =====
-- A search for a key ends at the node that has it, or where a node of that key belongs.

use native.Mathlib.Decide.{dec_lt}
use scoutfs_kmod_dev.Base.Rules.{if_rule}
use scoutfs_kmod_dev.Base.{
  subst, true, if◌then◌else◌, ℕ, ◌<◌, ◌≡◌, compare, Ordering, some, [], ◌∷◌, ◌++◌, arith, refl, ap,
  sym, ◌∙◌, true, if◌then◌else◌,
}
use scoutfs_kmod_dev.Base.Lists.{All, All-append, All-imp}
use scoutfs_kmod_dev.RbTree.{Sorted}
use scoutfs_kmod_dev.RbTree.Order.{Sorted-Around}
use scoutfs_kmod_dev.Avl.{
  Avl, nil, node, Above, from_left, from_right, Place, SearchResult, search_from, avl_insert,
  insert_below, rebalance, set_height, items, before, after, whole, is_nil, true,
}

module _ {A : Type 0} (key : A → ℕ) (k : ℕ) where
  abbrev pub cmp_to : A → Ordering
  cmp_to x = compare k (key x)

  -- the parents of the place where a node of key `k` belongs
  unfoldable pub spot : Above A → Avl A → Above A
  spot up nil = up
  spot up (node l x h r) =
      let left = spot (from_left up x h r) l in
      let right = spot (from_right l x h up) r in elim (cmp_to x) [ Ordering.lt ↦ left | _ ↦ right ]

  abbrev to_left : Above A → Avl A → A → ℕ → Avl A → SearchResult A → SearchResult A
  to_left up l x h r s = record s {
    cmp = Ordering.lt;
    par = some (record { above = up; tree = node l x h r });
    next = some (record { above = up; tree = node l x h r });
  }

  abbrev to_right : Above A → Avl A → A → ℕ → Avl A → SearchResult A → SearchResult A
  to_right up l x h r s = record s {
    cmp = Ordering.gt;
    par = some (record { above = up; tree = node l x h r });
    prev = some (record { above = up; tree = node l x h r });
  }

  search-node-lt :
      (up : Above A) (l : Avl A) (x : A) (h : ℕ) (r : Avl A) (s : SearchResult A)
      → k < key x
      → (search_from cmp_to up (node l x h r) s
          ≡ search_from cmp_to (from_left up x h r) l (to_left up l x h r s))
        × (spot up (node l x h r) ≡ spot (from_left up x h r) l)
  unfolding search_from spot
  search-node-lt up l x h r s q = ground (arith, q)

  search-node-gt :
      (up : Above A) (l : Avl A) (x : A) (h : ℕ) (r : Avl A) (s : SearchResult A)
      → key x < k
      → (search_from cmp_to up (node l x h r) s
          ≡ search_from cmp_to (from_right l x h up) r (record s {
            cmp = Ordering.gt;
            par = some (record { above = up; tree = node l x h r });
            prev = some (record { above = up; tree = node l x h r });
          }))
        × (spot up (node l x h r) ≡ spot (from_right l x h up) r)
  unfolding search_from spot
  search-node-gt up l x h r s q = ground (arith, q)

  search-node-eq :
      (up : Above A) (l : Avl A) (x : A) (h : ℕ) (r : Avl A) (s : SearchResult A)
      → k ≡ key x
      → (search_from cmp_to up (node l x h r) s).found
        ≡ some (record { above = up; tree = node l x h r })
  unfolding search_from
  search-node-eq up l x h r s q = ground (arith, q)

  -- What lies to the left of a path has lesser keys, and what lies to the right has greater ones.
  pub record Between (up : Above A) : Type 0 where
    pub below : All (λ x. key x < k) (before up)
    pub above : All (λ x. k < key x) (after up)

  Between-left :
      (up : Above A) (l : Avl A) (x : A) (h : ℕ) (r : Avl A)
      → Sorted key (items (node l x h r))
      → k < key x
      → Between up
      → Between (from_left up x h r)
  Between-left up l x h r s q b =
      let a = Sorted-Around key (items l) x (items r) s in
      record {
        below = b.below;
        above = (
          q,
          All-append (λ y. k < key y) (items r) (after up)
              (All-imp (λ y p. omega (arith, p, q)) (items r) a.above) b.above,
        );
      }

  Between-right :
      (up : Above A) (l : Avl A) (x : A) (h : ℕ) (r : Avl A)
      → Sorted key (items (node l x h r))
      → key x < k
      → Between up
      → Between (from_right l x h up)
  Between-right up l x h r s q b =
      let a = Sorted-Around key (items l) x (items r) s in
      record {
        below =
            All-append (λ y. key y < k) (before up ++ items l) (x ∷ [])
              (All-append (λ y. key y < k) (before up) (items l) b.below
                (All-imp (λ y p. omega (arith, p, q)) (items l) a.below))
              (q, tt);
        above = b.above;
      }

  -- The node that was found is in the tree and has the key; where none was found, the tree has a
  -- place for a node of that key, no node of it, and the node of the last comparison above it.
  pub data Ends (up : Above A) (t : Avl A) (s q : SearchResult A) : Type 0 where
    at_node :
        (p : Place A) (x : A) (l : Avl A) (h : ℕ) (r : Avl A)
        → q.found ≡ some p
        → p.tree ≡ node l x h r
        → key x ≡ k
        → whole p.above p.tree ≡ whole up t
        → Ends up t s q
    at_spot :
        q.found ≡ s.found
        → whole (spot up t) nil ≡ whole up t
        → Between (spot up t)
        → ((ins : A)
            → avl_insert q.par ins q.cmp ≡ (
                if is_nil t
                then avl_insert s.par ins s.cmp
                else rebalance (spot up t) (set_height (node nil ins 0 nil))))
        → Ends up t s q

  insert_left_of :
      (up : Above A) (l : Avl A) (x : A) (h : ℕ) (r : Avl A) (ins : A)
      → is_nil l ≡ true
      → avl_insert (some (record { above = up; tree = node l x h r })) ins Ordering.lt
        ≡ rebalance (spot (from_left up x h r) l) (set_height (node nil ins 0 nil))
  unfolding avl_insert insert_below spot
  insert_left_of up nil x h r ins e = refl
  insert_left_of up (node _ _ _ _) x h r ins e = cc

  insert_right_of :
      (up : Above A) (l : Avl A) (x : A) (h : ℕ) (r : Avl A) (ins : A)
      → is_nil r ≡ true
      → avl_insert (some (record { above = up; tree = node l x h r })) ins Ordering.gt
        ≡ rebalance (spot (from_right l x h up) r) (set_height (node nil ins 0 nil))
  unfolding avl_insert insert_below spot
  insert_right_of up l x h nil ins e = refl
  insert_right_of up l x h (node _ _ _ _) ins e = cc

  go_left :
      (up : Above A) (l : Avl A) (x : A) (h : ℕ) (r : Avl A) (s : SearchResult A)
      → search_from cmp_to up (node l x h r) s
        ≡ search_from cmp_to (from_left up x h r) l (to_left up l x h r s)
      → spot up (node l x h r) ≡ spot (from_left up x h r) l
      → Ends
          (from_left up x h r)
          l
          (to_left up l x h r s)
          (search_from cmp_to (from_left up x h r) l (to_left up l x h r s))
      → Ends up (node l x h r) s (search_from cmp_to up (node l x h r) s)
  go_left up l x h r s run same (at_node p y yl yh yr found is_node has_key inside) =
      at_node p y yl yh yr (ap (λ q. q.found) run ∙ found) is_node has_key inside
  go_left up l x h r s run same (at_spot found inside between inserts) =
      at_spot (ap (λ q. q.found) run ∙ found) (ap (λ u. whole u nil) same ∙ inside)
        (subst Between (sym same) between)
        (λ ins.
          ap (λ q. avl_insert q.par ins q.cmp) run
          ∙ inserts ins
          ∙ if_rule
              (λ (t : Avl A).
                t ≡ rebalance (spot (from_left up x h r) l) (set_height (node nil ins 0 nil)))
              (is_nil l) _ _ (insert_left_of up l x h r ins) (λ _. refl)
          ∙ ap (λ u. rebalance u (set_height (node nil ins 0 nil))) (sym same))

  go_right :
      (up : Above A) (l : Avl A) (x : A) (h : ℕ) (r : Avl A) (s : SearchResult A)
      → search_from cmp_to up (node l x h r) s
        ≡ search_from cmp_to (from_right l x h up) r (to_right up l x h r s)
      → spot up (node l x h r) ≡ spot (from_right l x h up) r
      → Ends
          (from_right l x h up)
          r
          (to_right up l x h r s)
          (search_from cmp_to (from_right l x h up) r (to_right up l x h r s))
      → Ends up (node l x h r) s (search_from cmp_to up (node l x h r) s)
  go_right up l x h r s run same (at_node p y yl yh yr found is_node has_key inside) =
      at_node p y yl yh yr (ap (λ q. q.found) run ∙ found) is_node has_key inside
  go_right up l x h r s run same (at_spot found inside between inserts) =
      at_spot (ap (λ q. q.found) run ∙ found) (ap (λ u. whole u nil) same ∙ inside)
        (subst Between (sym same) between)
        (λ ins.
          ap (λ q. avl_insert q.par ins q.cmp) run
          ∙ inserts ins
          ∙ if_rule
              (λ (t : Avl A).
                t ≡ rebalance (spot (from_right l x h up) r) (set_height (node nil ins 0 nil)))
              (is_nil r) _ _ (insert_right_of up l x h r ins) (λ _. refl)
          ∙ ap (λ u. rebalance u (set_height (node nil ins 0 nil))) (sym same))

  pub search_from-Ends :
      (up : Above A) (t : Avl A) (s : SearchResult A)
      → Sorted key (items t)
      → Between up
      → Ends up t s (search_from cmp_to up t s)
  unfolding search_from spot
  search_from-Ends up nil s h b = at_spot refl refl b (λ ins. refl)
  search_from-Ends up (node l x n r) s h b =
      let a = Sorted-Around key (items l) x (items r) h in
      elim (dec_lt k (key x)) [
        | yes lt ↦
            let (run, same) = search-node-lt up l x n r s lt in
            go_left up l x n r s run same
              (search_from-Ends (from_left up x n r) l _ a.left (Between-left up l x n r h lt b))
        | no m ↦ elim (dec_lt (key x) k) [
          | yes gt ↦
              let (run, same) = search-node-gt up l x n r s gt in
              go_right up l x n r s run same (
                search_from-Ends (from_right l x n up) r _ a.right
                  (Between-right up l x n r h gt b))
          | no m' ↦
              let e : k ≡ key x = omega (arith, m, m') in
              at_node (record { above = up; tree = node l x n r }) x l n r
                (search-node-eq up l x n r s e) refl (sym e) refl
        ]
      ]
