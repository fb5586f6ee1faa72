-- ===== src/Avl/Insert.antt =====
-- scoutfs_avl_insert after scoutfs_avl_search, as btree.c calls them.
use mathlib.Core.List.{append_assoc, append-nil}
use scoutfs_kmod_dev.Base.Rules.{if_rule}
use scoutfs_kmod_dev.Base.{
  true, Ordering, inl, inr, ◌⊎◌, u8, ℕ, ◌≡◌, ◌<◌, none, some, List, ◌∷◌, ◌++◌, arith, refl, ap, sym,
  ◌∙◌, subst,
}
use scoutfs_kmod_dev.Base.Lists.{length, All}
use scoutfs_kmod_dev.RbTree.{Sorted}
use scoutfs_kmod_dev.RbTree.Order.{Around-Sorted, Sorted-append_left, Sorted-append_right}
use scoutfs_kmod_dev.Avl.{
  Avl, nil, node, Above, top, Place, SearchResult, avl_search, avl_insert, rebalance, set_height,
  node_height, items, before, after, whole, is_nil,
}
use scoutfs_kmod_dev.Avl.Order.{items-whole, items-rebalance}
use scoutfs_kmod_dev.Avl.Balance.{IsAvl}
use scoutfs_kmod_dev.Avl.Height.{offsets, height-bound}
use scoutfs_kmod_dev.Avl.Rebalance.{whole-OnPath, rebalance-IsAvl}
use scoutfs_kmod_dev.Avl.Search.{cmp_to, spot, Ends, at_node, at_spot, search_from-Ends}

module _ {A : Type 0} (key : A → ℕ) where
  -- The tree `t'` has `ins` at its place among the items of `t`, which have other keys.
  pub record Inserts (t : Avl A) (ins : A) (t' : Avl A) : Type 0 where
    pub left : List A
    pub right : List A
    pub split : items t ≡ left ++ right
    pub joined : items t' ≡ left ++ ins ∷ right
    pub sorted : Sorted key (items t')
    pub balanced : IsAvl t'

  new_node : (ins : A) → set_height (node nil ins 0 nil) ≡ node nil ins 1 nil
  unfolding set_height node_height u8
  new_node ins = refl

  -- the insertion at the end of a path
  insert_at :
      (up : Above A) (t : Avl A) (ins : A)
      → IsAvl t
      → length (items t) < offsets
      → Sorted key (items t)
      → whole up nil ≡ t
      → All (λ x. key x < key ins) (before up)
      → All (λ x. key ins < key x) (after up)
      → Inserts t ins (rebalance up (set_height (node nil ins 0 nil)))
  unfolding node_height
  insert_at up t ins avl small sorted inside below above =
      let split : items t ≡ before up ++ after up =
        ap items (sym inside)
        ∙ items-whole up nil
        ∙ ap (λ xs. xs ++ after up) (append-nil (before up)) in
      let path = whole-OnPath up nil (subst IsAvl (sym inside) avl) (
        subst (λ (u : Avl A). node_height u < 240) (sym inside)
          (omega (arith, height-bound t avl small))) in
      let joined : items (rebalance up (set_height (node nil ins 0 nil)))
          ≡ before up ++ ins ∷ after up =
        ap (λ u. items (rebalance up u)) (new_node ins)
        ∙ items-rebalance up (node nil ins 1 nil)
        ∙ simp append_assoc in
      let parts = subst (Sorted key) split sorted in
      record {
        left = before up;
        right = after up;
        split = split;
        joined = joined;
        sorted = subst (Sorted key) (sym joined) (
            Around-Sorted key (before up) ins (after up) (record {
              below = below;
              above = above;
              left = Sorted-append_left key (before up) (after up) parts;
              right = Sorted-append_right key (before up) (after up) parts;
            }));
        balanced =
            subst (λ (u : Avl A). IsAvl (rebalance up u)) (sym (new_node ins))
              (rebalance-IsAvl up (node nil ins 1 nil) 0 path.1 (omega arith) (omega arith)
                (omega arith));
      }

  abbrev nothing : SearchResult A
  nothing = record { found = none; cmp = Ordering.lt; par = none; next = none; prev = none }

  empty_insert :
      (t : Avl A) (ins : A)
      → is_nil t ≡ true
      → avl_insert none ins Ordering.lt
        ≡ rebalance (spot key (key ins) top t) (set_height (node nil ins 0 nil))
  unfolding avl_insert spot rebalance
  empty_insert nil ins e = refl
  empty_insert (node _ _ _ _) ins e = cc

  -- The search found the item of the key, at a pointer into the tree.
  abbrev pub FoundIn : Avl A → ℕ → Place A → Type 0
  FoundIn t k p =
      (x : A) × (l : Avl A) × (h : ℕ) × (r : Avl A) × (p.tree ≡ node l x h r)
      × (key x ≡ k)
      × (whole p.above p.tree ≡ t)

  -- Either the search found an item of the key, or it found none and the insertion below the
  -- search's last node with its last comparison puts the item at its place.
  abbrev pub Outcome : Avl A → A → SearchResult A → Type 0
  Outcome t ins q =
      ((p : Place A) × (q.found ≡ some p) × FoundIn t (key ins) p)
      ⊎ ((q.found ≡ none) × Inserts t ins (avl_insert q.par ins q.cmp))

  after_search :
      (t : Avl A) (ins : A) (q : SearchResult A)
      → IsAvl t
      → length (items t) < offsets
      → Sorted key (items t)
      → Ends key (key ins) top t nothing q
      → Outcome t ins q
  after_search t ins q avl small sorted (at_node p x l h r found is_node has_key inside) =
      inl (p, found, (x, l, h, r, is_node, has_key, inside))
  after_search t ins q avl small sorted (at_spot found inside between inserts) =
      let run : avl_insert q.par ins q.cmp
          ≡ rebalance (spot key (key ins) top t) (set_height (node nil ins 0 nil)) =
        inserts ins
        ∙ if_rule
            (λ (u : Avl A).
              u ≡ rebalance (spot key (key ins) top t) (set_height (node nil ins 0 nil)))
            (is_nil t) _ _ (empty_insert t ins) (λ _. refl) in
      inr (
        found,
        subst (Inserts t ins) (sym run) (
            insert_at (spot key (key ins) top t) t ins avl small sorted inside between.below
              between.above),
      )

  -- In a balanced tree of fewer than 2^16 items whose keys grow, a search for the key of a new item
  -- either finds an item of that key in the tree, or finds none, and then the insertion below the
  -- search's last node with its last comparison puts the new item at its place, and the tree is
  -- balanced with growing keys again.
  pub avl_search-Inserts :
      (t : Avl A) (ins : A)
      → IsAvl t
      → length (items t) < offsets
      → Sorted key (items t)
      → Outcome t ins (avl_search (cmp_to key (key ins)) t)
  unfolding avl_search
  avl_search-Inserts t ins avl small sorted =
      after_search t ins _ avl small sorted
        (search_from-Ends key (key ins) top t nothing sorted (record { below = tt; above = tt }))
