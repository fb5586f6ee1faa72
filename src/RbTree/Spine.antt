-- ===== src/RbTree/Spine.antt =====
-- A tree kept as a spine of right children, whose operations keep the laws of an rbtree.
use scoutfs_kmod_dev.Base.{
  ℕ, ◌<◌, ◌≡◌, ◌==◌, if◌then◌else◌, List, [], ◌∷◌, ◌++◌, refl, ap, ◌∙◌, arith, subst,
}
use scoutfs_kmod_dev.Base.Lists.{All-append_right}
use scoutfs_kmod_dev.RbTree.{Tree, leaf, node, in_order, RbOps, IsRbOps, Sorted}

abbrev pub spine : {A : Type 0} → List A → Tree A
spine [] = leaf
spine (x ∷ xs) = node leaf x (spine xs)

spine-in_order : {A : Type 0} (xs : List A) → in_order (spine xs) ≡ xs
spine-in_order [] = refl
spine-in_order (x ∷ xs) = ap (λ l. x ∷ l) (spine-in_order xs)

module _ {A : Type 0} (key : A → ℕ) where
  unfoldable pub drop_key : List A → ℕ → List A
  drop_key [] k = []
  drop_key (x ∷ xs) k = let rest = drop_key xs k in if key x == k then xs else x ∷ rest

  drop_key-append :
      (xs : List A) (y : A) (ys : List A)
      → Sorted key (xs ++ y ∷ ys)
      → drop_key (xs ++ y ∷ ys) (key y) ≡ xs ++ ys
  unfolding drop_key
  drop_key-append [] y ys h = ground arith
  drop_key-append (x ∷ xs) y ys h = ground (
    arith,
    drop_key-append xs y ys h.1,
    (All-append_right (λ a. key x < key a) xs (y ∷ ys) h.0).0,
  )

  abbrev pub spine_ops : RbOps A
  spine_ops = record { insert_color = λ t. t; erase = λ t x. spine (drop_key (in_order t) (key x)) }

  pub spine-IsRbOps : IsRbOps key spine_ops
  spine-IsRbOps = record {
    insert_color_in_order = λ t. refl;
    erase_in_order = λ t x before after h e.
        spine-in_order (drop_key (in_order t) (key x))
        ∙ ap (λ l. drop_key l (key x)) e
        ∙ drop_key-append before x after (subst (Sorted key) e h);
  }
