-- ===== src/Avl/Walk.antt =====
-- scoutfs_avl_next and scoutfs_avl_prev.
use mathlib.Core.List.{append_assoc, append-nil}
use scoutfs_kmod_dev.Base.{
  ℕ, ◌≡◌, Option, none, some, List, [], ◌∷◌, ◌++◌, refl, sym, ◌∙◌, arith, ◌<◌, subst,
}
use scoutfs_kmod_dev.Avl.{
  Avl, nil, node, Above, top, from_left, from_right, Place, leftmost, rightmost, climb_right,
  climb_left, avl_next, avl_prev, items, before, after, whole, node_height,
}
use scoutfs_kmod_dev.Avl.Order.{list_laws}
use scoutfs_kmod_dev.Avl.Balance.{IsAvl}
use scoutfs_kmod_dev.Avl.Rebalance.{OnPath}

module _ {A : Type 0} where
  -- The end of a walk to the left from the subtree `t`: a node without a left child.
  pub record Leftmost (up : Above A) (t : Avl A) (p : Place A) : Type 0 where
    pub first : A
    pub height : ℕ
    pub right : Avl A
    pub is_node : p.tree ≡ node nil first height right
    pub none_before : before p.above ≡ before up
    pub rest : first ∷ items right ++ after p.above ≡ items t ++ after up
    pub inside : whole p.above p.tree ≡ whole up t
    pub on_path :
        IsAvl t
        → node_height t < 240
        → OnPath up (node_height t)
        → OnPath p.above height × IsAvl (node nil first height right)

  pub leftmost-Leftmost :
      (up : Above A) (l : Avl A) (x : A) (h : ℕ) (r : Avl A)
      → Leftmost up (node l x h r) (leftmost up (node l x h r))
  unfolding leftmost node_height
  leftmost-Leftmost up nil x h r = record {
    first = x;
    height = h;
    right = r;
    is_node = refl;
    none_before = refl;
    rest = refl;
    inside = refl;
    on_path = λ a b p. (p, a);
  }
  leftmost-Leftmost up (node ll y k lr) x h r =
      let w = leftmost-Leftmost (from_left up x h r) ll y k lr in
      record {
        first = w.first;
        height = w.height;
        right = w.right;
        is_node = w.is_node;
        none_before = w.none_before;
        rest = w.rest ∙ simp list_laws;
        inside = w.inside;
        on_path = λ a b p. w.on_path a.3 (omega (arith, a.0, b)) (a.0, a.1, a.2, a.4, b, p);
      }

  pub record Rightmost (up : Above A) (t : Avl A) (p : Place A) : Type 0 where
    pub last : A
    pub height : ℕ
    pub left : Avl A
    pub is_node : p.tree ≡ node left last height nil
    pub none_after : after p.above ≡ after up
    pub rest : before p.above ++ items left ++ last ∷ [] ≡ before up ++ items t
    pub inside : whole p.above p.tree ≡ whole up t

  pub rightmost-Rightmost :
      (up : Above A) (l : Avl A) (x : A) (h : ℕ) (r : Avl A)
      → Rightmost up (node l x h r) (rightmost up (node l x h r))
  unfolding rightmost
  rightmost-Rightmost up l x h nil = record {
    last = x;
    height = h;
    left = l;
    is_node = refl;
    none_after = refl;
    rest = append_assoc (before up) (items l) (x ∷ []);
    inside = refl;
  }
  rightmost-Rightmost up l x h (node rl y k rr) =
      let w = rightmost-Rightmost (from_right l x h up) rl y k rr in
      record {
        last = w.last;
        height = w.height;
        left = w.left;
        is_node = w.is_node;
        none_after = w.none_after;
        rest = w.rest ∙ simp list_laws;
        inside = w.inside;
      }

  -- The pointer is to the node of the item `x`, after the items `xs` and before the items `ys`.
  pub record Points (t : Avl A) (xs : List A) (x : A) (ys : List A) (p : Place A) : Type 0 where
    pub left : Avl A
    pub height : ℕ
    pub right : Avl A
    pub is_node : p.tree ≡ node left x height right
    pub inside : whole p.above p.tree ≡ t
    pub lesser : before p.above ++ items left ≡ xs
    pub greater : items right ++ after p.above ≡ ys

  -- The neighbour after the items `xs`, the first one of the items `ys`, or none.
  abbrev pub Next : Avl A → List A → List A → Option (Place A) → Type 0
  Next t xs ys none = ys ≡ []
  Next t xs ys (some p) = (y : A) × (rest : List A) × (ys ≡ y ∷ rest) × Points t xs y rest p

  climb_right-Next :
      (up : Above A) (t : Avl A)
      → Next (whole up t) (before up ++ items t) (after up) (climb_right up t)
  unfolding climb_right
  climb_right-Next top t = refl
  climb_right-Next (from_left up x h r) t = (
    x,
    items r ++ after up,
    refl,
    record {
      left = t;
      height = h;
      right = r;
      is_node = refl;
      inside = refl;
      lesser = refl;
      greater = refl;
    },
  )
  climb_right-Next (from_right l x h up) t =
      subst (λ xs. Next (whole up (node l x h t)) xs (after up) (climb_right up (node l x h t)))
        (simp list_laws) (climb_right-Next up (node l x h t))

  -- scoutfs_avl_next at a node points to the first item after the node's, or to none where no item
  -- comes after it.
  pub avl_next-Next :
      (up : Above A) (l : Avl A) (x : A) (h : ℕ) (r : Avl A)
      → Next
          (whole up (node l x h r))
          (before up ++ (items l ++ x ∷ []))
          (items r ++ after up)
          (avl_next up (node l x h r))
  unfolding avl_next
  avl_next-Next up l x h nil = climb_right-Next up (node l x h nil)
  avl_next-Next up l x h (node rl y k rr) =
      let w = leftmost-Leftmost (from_right l x h up) rl y k rr in
      (
        w.first,
        items w.right ++ after (leftmost (from_right l x h up) (node rl y k rr)).above,
        sym w.rest,
        record {
          left = nil;
          height = w.height;
          right = w.right;
          is_node = w.is_node;
          inside = w.inside;
          lesser = append-nil _ ∙ w.none_before ∙ append_assoc (before up) (items l) (x ∷ []);
          greater = refl;
        },
      )

  -- The neighbour before the items `ys`, the last one of the items `xs`, or none.
  abbrev pub Prev : Avl A → List A → List A → Option (Place A) → Type 0
  Prev t xs ys none = xs ≡ []
  Prev t xs ys (some p) = (y : A) × (rest : List A) × (xs ≡ rest ++ y ∷ []) × Points t rest y ys p

  climb_left-Prev :
      (up : Above A) (t : Avl A)
      → Prev (whole up t) (before up) (items t ++ after up) (climb_left up t)
  unfolding climb_left
  climb_left-Prev top t = refl
  climb_left-Prev (from_left up x h r) t =
      subst (λ ys. Prev (whole up (node t x h r)) (before up) ys (climb_left up (node t x h r)))
        (simp list_laws) (climb_left-Prev up (node t x h r))
  climb_left-Prev (from_right l x h up) t = (
    x,
    before up ++ items l,
    refl,
    record {
      left = l;
      height = h;
      right = t;
      is_node = refl;
      inside = refl;
      lesser = refl;
      greater = refl;
    },
  )

  -- scoutfs_avl_prev at a node points to the last item before the node's, or to none where no item
  -- comes before it.
  pub avl_prev-Prev :
      (up : Above A) (l : Avl A) (x : A) (h : ℕ) (r : Avl A)
      → Prev
          (whole up (node l x h r))
          (before up ++ items l)
          (x ∷ items r ++ after up)
          (avl_prev up (node l x h r))
  unfolding avl_prev
  avl_prev-Prev up nil x h r =
      subst
        (λ xs.
          Prev (whole up (node nil x h r)) xs (x ∷ items r ++ after up)
            (climb_left up (node nil x h r)))
        (sym (append-nil (before up))) (climb_left-Prev up (node nil x h r))
  avl_prev-Prev up (node ll y k lr) x h r =
      let w = rightmost-Rightmost (from_left up x h r) ll y k lr in
      (
        w.last,
        before (rightmost (from_left up x h r) (node ll y k lr)).above ++ items w.left,
        sym w.rest,
        record {
          left = w.left;
          height = w.height;
          right = nil;
          is_node = w.is_node;
          inside = w.inside;
          lesser = refl;
          greater = w.none_after;
        },
      )
