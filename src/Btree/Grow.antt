-- ===== src/Btree/Grow.antt =====
-- The index of a block when an item is inserted after a search for its key.
use scoutfs_kmod_dev.Btree.Sorts.{Sorted_agree}
use scoutfs_kmod_dev.RbTree.{Sorted}
use scoutfs_kmod_dev.Avl.Order.{items-whole}
use scoutfs_kmod_dev.Btree.{item_off}
use scoutfs_kmod_dev.Btree.Leaf.{Live, Live_more, Live_suc}
use scoutfs_kmod_dev.Avl.Height.{offsets}
use scoutfs_kmod_dev.Base.{
  ℕ, ◌+◌, Ordering, ◌≡◌, ◌<◌, subst, inl, ◌⊎◌, ap, ◌≢◌, sym, inr, ◌∙◌, none, some, ◌↔◌, refl, ◌++◌,
  arith, Option,
}
use scoutfs_kmod_dev.Base.Lists.{length}
use scoutfs_kmod_dev.Avl.{
  after, Avl, nil, node, Above, SearchResult, search_from, avl_search, items, whole, Place,
  from_left, from_right, before, avl_insert, top,
}
use scoutfs_kmod_dev.Avl.Search.{cmp_to}
use scoutfs_kmod_dev.Avl.Insert.{avl_search-Inserts, FoundIn, Outcome}
use scoutfs_kmod_dev.Btree.Nodes.{Among, Among-append, Among-around}
use scoutfs_kmod_dev.Btree.Index.{IsIndex, length-around}

search_from_agree :
    (f g : ℕ → Ordering) (up : Above ℕ) (t : Avl ℕ) (s : SearchResult ℕ)
    → ((o : ℕ) → Among o (items t) → f o ≡ g o)
    → search_from f up t s ≡ search_from g up t s
unfolding search_from
search_from_agree f g up nil s same = refl
search_from_agree f g up (node l x h r) s same =
    let here = same x ((Among-around x x (items l) (items r)).1 (inl refl)) in
    let inside : (o : ℕ) → (Among o (items l) ⊎ Among o (items r)) → f o ≡ g o =
      λ o m. same o ((Among-around o x (items l) (items r)).1 (inr ((Among-append o _ _).1 m))) in
    let at : Option (Place ℕ) = some (record { above = up; tree = node l x h r }) in
    let a : SearchResult ℕ = record s { cmp = Ordering.lt; par = at; next = at } in
    let b : SearchResult ℕ = record s { cmp = Ordering.gt; par = at; prev = at } in
    let left = search_from_agree f g (from_left up x h r) l a (λ o m. inside o (inl m)) in
    let right = search_from_agree f g (from_right l x h up) r b (λ o m. inside o (inr m)) in
    let pick : Ordering → SearchResult ℕ → SearchResult ℕ → SearchResult ℕ = λ c y z. elim c [
      | Ordering.lt ↦ y
      | Ordering.gt ↦ z
      | Ordering.eq ↦ record s { found = at; cmp = Ordering.eq; par = at }
    ] in
    ap
      (λ c.
        pick c (search_from f (from_left up x h r) l a) (search_from f (from_right l x h up) r b))
      here
    ∙ ap (λ y. pick (g x) y (search_from f (from_right l x h up) r b)) left
    ∙ ap (λ z. pick (g x) (search_from g (from_left up x h r) l a) z) right

-- a node of the tree is among its items
FoundIn-Among :
    (key : ℕ → ℕ) (t : Avl ℕ) (k : ℕ) (p : Place ℕ)
    → FoundIn key t k p
    → (x : ℕ) × Among x (items t) × (key x ≡ k)
FoundIn-Among key t k p (x, l, h, r, e, f, w) = (
  x,
  subst (λ u. Among x (items u)) (ap (λ v. whole p.above v) (sym e) ∙ w)
      (subst (Among x) (sym (items-whole p.above (node l x h r))) (
        (Among-append x (before p.above ++ items (node l x h r)) (after p.above)).1 (
          inl (
            (Among-append x (before p.above) (items (node l x h r))).1
              (inr ((Among-around x x (items l) (items r)).1 (inl refl))))))),
  f,
)

module _ (key key' : ℕ → ℕ) (n : ℕ) (root : Avl ℕ) (h : IsIndex key n root)
    (small : n + 1 < offsets) (same : (o : ℕ) → Live n o → key' o ≡ key o)
    (new : (o : ℕ) → Live n o → key' o ≢ key' (item_off n)) where
  sorted' : Sorted key' (items root)
  sorted' = Sorted_agree key key' (items root) (λ o m. same o ((h.members o).0 m)) h.sorted

  insert-after :
      (q : SearchResult ℕ)
      → Outcome key' root (item_off n) q
      → (q.found ≡ none) × IsIndex key' (n + 1) (avl_insert q.par (item_off n) q.cmp)
  insert-after q (inl (p, found, is)) =
      let (x, m, e) = FoundIn-Among key' root _ p is in absurd (new x ((h.members x).0 m) e)
  insert-after q (inr (found, i)) = (
    found,
    record {
      balanced = i.balanced;
      sorted = i.sorted;
      members = λ o.
          subst (λ zs. Among o zs ↔ Live (n + 1) o) (sym i.joined)
            (
              λ m. elim ((Among-around o (item_off n) i.left i.right).0 m) [
                | inl e ↦ (n, omega arith, e)
                | inr k ↦ Live_more n o ((h.members o).0 (subst (Among o) (sym i.split) k))
              ],
              λ l. (Among-around o (item_off n) i.left i.right).1 (elim (Live_suc n o l) [
                | inl k ↦ inr (subst (Among o) i.split ((h.members o).1 k))
                | inr e ↦ inl e
              ]),
            );
      counted = omega (
        arith,
        ap length i.joined,
        ap length i.split,
        length-around i.left (item_off n) i.right,
        h.counted,
      );
    },
  )

  pub search-insert-IsIndex :
      (f : ℕ → Ordering)
      → ((o : ℕ) → Live n o → f o ≡ cmp_to key' (key' (item_off n)) o)
      → let q = avl_search f root in
        ((q.found ≡ none) × IsIndex key' (n + 1) (avl_insert q.par (item_off n) q.cmp))
  unfolding avl_search
  search-insert-IsIndex f g =
      let agree =
        search_from_agree f (cmp_to key' (key' (item_off n))) top root
          (record { found = none; cmp = Ordering.lt; par = none; next = none; prev = none })
          (λ o m. g o ((h.members o).0 m)) in
      subst
        (λ (q : SearchResult ℕ).
          (q.found ≡ none) × IsIndex key' (n + 1) (avl_insert q.par (item_off n) q.cmp))
        (sym agree)
        (insert-after (avl_search (cmp_to key' (key' (item_off n))) root) (
          avl_search-Inserts key' root (item_off n) h.balanced (omega (arith, h.counted, small))
            sorted'))
