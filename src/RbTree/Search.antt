-- ===== src/RbTree/Search.antt =====
-- What a walk from the root finds.
use mathlib.Core.List.{append_assoc}
use scoutfs_kmod_dev.Base.{
  Bool-cases, subst, inl, inr, ℕ, ◌<◌, ◌≡◌, ltb, ◌==◌, if◌then◌else◌, Option, none, some, List, [],
  ◌∷◌, ◌++◌, arith, refl, ◌⊎◌, ap, ◌∙◌, sym,
}
use scoutfs_kmod_dev.Base.Lists.{All, All-append, All-append_left, All-append_right}
use scoutfs_kmod_dev.RbTree.{Tree, leaf, node, in_order, Sorted, find, RbOps, link, write, IsRbOps}
use scoutfs_kmod_dev.RbTree.Order.{link-Sorted, Around, Sorted-Around}

module _ {A : Type 0} (key : A → ℕ) where
  -- the first node of a list with the key
  unfoldable pub lookup : List A → ℕ → Option A
  lookup [] k = none
  lookup (x ∷ xs) k = let rest = lookup xs k in if key x == k then some x else rest

  lookup-none_above :
      (xs : List A) (k n : ℕ) → k < n ⊎ (k ≡ n) → All (λ a. n < key a) xs → lookup xs k ≡ none
  unfolding lookup
  lookup-none_above [] k n q h = refl
  lookup-none_above (x ∷ xs) k n q h = ground (arith, lookup-none_above xs k n q h.1, h.0)

  lookup-none_below :
      (xs : List A) (k n : ℕ) → n < k ⊎ (k ≡ n) → All (λ a. key a < n) xs → lookup xs k ≡ none
  unfolding lookup
  lookup-none_below [] k n q h = refl
  lookup-none_below (x ∷ xs) k n q h = ground (arith, lookup-none_below xs k n q h.1, h.0)

  lookup-append :
      (xs ys : List A) (k : ℕ)
      → lookup (xs ++ ys) k ≡ elim (lookup xs k) [ some x ↦ some x | none ↦ lookup ys k ]
  unfolding lookup
  lookup-append [] ys k = refl
  lookup-append (x ∷ xs) ys k = ground (arith, lookup-append xs ys k)

  lookup-Around :
      (xs : List A) (y : A) (ys : List A) (k : ℕ)
      → Around key xs y ys
      → lookup (xs ++ y ∷ ys) k
        ≡ (if ltb k (key y) then lookup xs k else if ltb (key y) k then lookup ys k else some y)
  unfolding lookup
  lookup-Around xs y ys k h = ground (
    arith,
    lookup-append xs (y ∷ ys) k,
    lookup-none_above ys k (key y),
    lookup-none_below xs k (key y),
    h.above,
    h.below,
  )

  -- In a tree of growing keys the walk finds the node with the key.
  pub find-lookup :
      (t : Tree A) (k : ℕ) → Sorted key (in_order t) → find key t k ≡ lookup (in_order t) k
  unfolding find lookup
  find-lookup leaf k h = refl
  find-lookup (node l x r) k h =
      let a = Sorted-Around key (in_order l) x (in_order r) h in
      ground (
        arith,
        lookup-Around (in_order l) x (in_order r) k a,
        find-lookup l k a.left,
        find-lookup r k a.right,
      )

  -- Where no node has the new node's key, it is found under its key once it is linked.
  find-link :
      (t : Tree A) (ins : A) (k : ℕ)
      → find key t (key ins) ≡ none
      → find key (link key t ins) k ≡ (if k == key ins then some ins else find key t k)
  unfolding find link
  find-link leaf ins k h = ground arith
  find-link (node l x r) ins k h = ground (arith, find-link l ins k, find-link r ins k)

  pub find-write :
      (t : Tree A) (i : ℕ) (f : A → A) (k : ℕ)
      → ((a : A) → key (f a) ≡ key a)
      → find key (write key t i f) k
        ≡ elim (find key t k) [ none ↦ none | some a ↦ some (if k == i then f a else a) ]
  unfolding find write
  find-write leaf i f k keeps = refl
  find-write (node l x r) i f k keeps =
      ground (arith, find-write l i f k keeps, find-write r i f k keeps, keeps x)

  pub find-key : (t : Tree A) (k : ℕ) (a : A) → find key t k ≡ some a → key a ≡ k
  unfolding find
  find-key leaf k a h = cc
  find-key (node l x r) k a h = ground (arith, find-key l k a, find-key r k a)

  find-split :
      (t : Tree A) (k : ℕ) (a : A)
      → find key t k ≡ some a
      → (before after : List A) × (in_order t ≡ before ++ a ∷ after)
  unfolding find
  find-split leaf k a h = cc
  find-split (node l x r) k a h = elim (Bool-cases (ltb k (key x))) [
    | inl t ↦
        let (before, after, e) = find-split l k a (ground (arith, t)) in
        (
          before,
          after ++ x ∷ in_order r,
          ap (λ xs. xs ++ x ∷ in_order r) e ∙ append_assoc before (a ∷ after) (x ∷ in_order r),
        )
    | inr t ↦ elim (Bool-cases (ltb (key x) k)) [
      | inl u ↦
          let (before, after, e) = find-split r k a (ground (arith, t, u)) in
          (
            in_order l ++ x ∷ before,
            after,
            ap (λ xs. in_order l ++ x ∷ xs) e
                ∙ sym (append_assoc (in_order l) (x ∷ before) (a ∷ after)),
          )
      | inr u ↦ (in_order l, in_order r, ground (arith, t, u))
    ]
  ]

  lookup-without :
      (xs : List A) (y : A) (ys : List A) (k : ℕ)
      → Around key xs y ys
      → lookup (xs ++ ys) k ≡ (if k == key y then none else lookup (xs ++ y ∷ ys) k)
  unfolding lookup
  lookup-without xs y ys k h = ground (
    arith,
    lookup-append xs ys k,
    lookup-append xs (y ∷ ys) k,
    lookup-none_above ys k (key y),
    lookup-none_below xs k (key y),
    h.above,
    h.below,
  )

  without-Sorted :
      (xs : List A) (y : A) (ys : List A) → Sorted key (xs ++ y ∷ ys) → Sorted key (xs ++ ys)
  without-Sorted [] y ys h = h.1
  without-Sorted (x ∷ xs) y ys h = (
    All-append (λ a. key x < key a) xs ys (All-append_left (λ a. key x < key a) xs (y ∷ ys) h.0)
        (All-append_right (λ a. key x < key a) xs (y ∷ ys) h.0).1,
    without-Sorted xs y ys h.1,
  )

  module _ (rb : RbOps A) (laws : IsRbOps key rb) where
    pub insert-Sorted :
        (t : Tree A) (ins : A)
        → Sorted key (in_order t)
        → Sorted key (in_order (rb.insert_color (link key t ins)))
    insert-Sorted t ins h =
        subst (Sorted key) (sym (laws.insert_color_in_order (link key t ins)))
          (link-Sorted key t ins h)

    pub find-insert :
        (t : Tree A) (ins : A) (k : ℕ)
        → Sorted key (in_order t)
        → find key t (key ins) ≡ none
        → find key (rb.insert_color (link key t ins)) k
          ≡ (if k == key ins then some ins else find key t k)
    find-insert t ins k h absent =
        find-lookup _ k (insert-Sorted t ins h)
        ∙ ap (λ xs. lookup xs k) (laws.insert_color_in_order (link key t ins))
        ∙ sym (find-lookup (link key t ins) k (link-Sorted key t ins h))
        ∙ find-link t ins k absent

    module _ (t : Tree A) (i : ℕ) (a : A) (h : Sorted key (in_order t))
        (found : find key t i ≡ some a) where
      pub erase-Sorted : Sorted key (in_order (rb.erase t a))
      erase-Sorted =
          let (before, after, e) = find-split t i a found in
          subst (Sorted key) (sym (laws.erase_in_order t a before after h e))
            (without-Sorted before a after (subst (Sorted key) e h))

      pub find-erase : (k : ℕ) → find key (rb.erase t a) k ≡ (if k == i then none else find key t k)
      find-erase k =
          let (before, after, e) = find-split t i a found in
          find-lookup (rb.erase t a) k erase-Sorted
          ∙ ap (λ xs. lookup xs k) (laws.erase_in_order t a before after h e)
          ∙ lookup-without before a after k
              (Sorted-Around key before a after (subst (Sorted key) e h))
          ∙ ap (λ n. if k == n then none else lookup (before ++ a ∷ after) k) (find-key t i a found)
          ∙ ap (λ o. if k == i then none else o)
              (ap (λ xs. lookup xs k) (sym e) ∙ sym (find-lookup t k h))
