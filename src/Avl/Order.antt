-- ===== src/Avl/Order.antt =====
-- The order of the items, over each operation.
use mathlib.Core.List.{append_assoc, append-nil}
use scoutfs_kmod_dev.Base.{◌≡◌, ◌∷◌, ◌++◌, refl, ap, sym, ◌∙◌}
use scoutfs_kmod_dev.Base.Rules.{if_rule}
use scoutfs_kmod_dev.Avl.{
  Avl, nil, node, Above, top, from_left, from_right, items, before, after, whole, set_height,
  rotate_right, rotate_left, rotate_imbalance, rebalance, right_heavy, left_heavy,
}

pub ruleset list_laws = (append_assoc, append-nil)

module _ {A : Type 0} where
  pub items-whole :
      (up : Above A) (t : Avl A) → items (whole up t) ≡ before up ++ items t ++ after up
  items-whole top t = sym (append-nil (items t))
  items-whole (from_left up x h r) t = items-whole up (node t x h r) ∙ simp list_laws
  items-whole (from_right l x h up) t = items-whole up (node l x h t) ∙ simp list_laws

  pub items-set_height : (t : Avl A) → items (set_height t) ≡ items t
  unfolding set_height
  items-set_height nil = refl
  items-set_height (node l x h r) = refl

  items-rotate_right : (t : Avl A) → items (rotate_right t) ≡ items t
  unfolding rotate_right set_height
  items-rotate_right nil = refl
  items-rotate_right (node nil x h r) = refl
  items-rotate_right (node (node a b hb c) d hd e) = simp list_laws

  items-rotate_left : (t : Avl A) → items (rotate_left t) ≡ items t
  unfolding rotate_left set_height
  items-rotate_left nil = refl
  items-rotate_left (node l x h nil) = refl
  items-rotate_left (node a b hb (node c d hd e)) = simp list_laws

  pub items-rotate_imbalance : (t : Avl A) → items (rotate_imbalance t) ≡ items t
  unfolding rotate_imbalance
  items-rotate_imbalance nil = refl
  items-rotate_imbalance (node l x h r) =
      let same = λ (u : Avl A). items u ≡ items (node l x h r) in
      if_rule same (right_heavy 1 (node l x h r)) _ _
        (λ _.
          items-rotate_left _
          ∙ if_rule (λ (u : Avl A). items l ++ x ∷ items u ≡ items l ++ x ∷ items r)
              (left_heavy 0 r) _ _ (λ _. ap (λ xs. items l ++ x ∷ xs) (items-rotate_right r))
              (λ _. refl))
        (λ _.
          if_rule same (left_heavy 1 (node l x h r)) _ _
            (λ _.
              items-rotate_right _
              ∙ if_rule (λ (u : Avl A). items u ++ x ∷ items r ≡ items l ++ x ∷ items r)
                  (right_heavy 0 l) _ _ (λ _. ap (λ xs. xs ++ x ∷ items r) (items-rotate_left l))
                  (λ _. refl))
            (λ _. refl))

  pub items-rebalance :
      (up : Above A) (t : Avl A) → items (rebalance up t) ≡ before up ++ items t ++ after up
  unfolding rebalance
  items-rebalance top t = sym (append-nil (items t))
  items-rebalance (from_left up x h r) t =
      items-rebalance up _
      ∙ ap (λ xs. before up ++ xs ++ after up)
          (items-rotate_imbalance _ ∙ items-set_height (node t x h r))
      ∙ simp list_laws
  items-rebalance (from_right l x h up) t =
      items-rebalance up _
      ∙ ap (λ xs. before up ++ xs ++ after up)
          (items-rotate_imbalance _ ∙ items-set_height (node l x h t))
      ∙ simp list_laws
