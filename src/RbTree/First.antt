-- ===== src/RbTree/First.antt =====
-- The walk for the first node from a key on, which keeps the last greater node.
use scoutfs_kmod_dev.Base.{
  subst, ◌∷◌, ℕ, ◌<◌, ◌≤◌, ◌≡◌, ◌⊎◌, ltb, if◌then◌else◌, Option, some, arith, refl, inl, inr, sym,
  ◌∙◌,
}
use scoutfs_kmod_dev.Base.Lists.{All, All-append_left, All-append_right, All-append}
use scoutfs_kmod_dev.RbTree.{Tree, leaf, node, in_order, Sorted, find}
use scoutfs_kmod_dev.RbTree.Order.{Around, Sorted-Around}
use native.Mathlib.Decide.{dec_lt}

module _ {A : Type 0} (key : A → ℕ) where
  unfoldable pub first_from : Tree A → ℕ → Option A → Option A
  first_from leaf k next = next
  first_from (node l x r) k next =
      let left = first_from l k (some x) in
      let right = first_from r k next in
      if ltb k (key x) then left else if ltb (key x) k then right else some x

  pub find-All :
      (P : A → Type 0) (t : Tree A) (j : ℕ) (y : A)
      → All P (in_order t)
      → find key t j ≡ some y
      → P y × (key y ≡ j)
  unfolding find
  find-All P leaf j y h e = cc
  find-All P (node l x r) j y h e =
      let left = All-append_left P (in_order l) (x ∷ in_order r) h in
      let right = All-append_right P (in_order l) (x ∷ in_order r) h in
      elim (dec_lt j (key x)) [
        | yes p ↦ find-All P l j y left (ground (arith, e, p))
        | no p ↦ elim (dec_lt (key x) j) [
          | yes q ↦ find-All P r j y right.1 (ground (arith, e, q))
          | no q ↦
              let same : x ≡ y = ground (arith, e, p, q) in
              (subst P same right.0, ground (arith, e, p, q))
        ]
      ]

  -- All nodes have lesser keys and the result is `next`, or it is the node with the least key that is
  -- `k` or more.
  abbrev pub FirstIs : Tree A → ℕ → Option A → Option A → Type 0
  FirstIs t k next res =
      ((res ≡ next) × ((j : ℕ) (y : A) → find key t j ≡ some y → j < k))
      ⊎ ((x : A) × (res ≡ some x)
          × (find key t (key x) ≡ some x)
          × (k ≤ key x)
          × ((j : ℕ) (y : A) → find key t j ≡ some y → k ≤ j → key x ≤ j))

  module _ (l : Tree A) (x : A) (r : Tree A) (h : Sorted key (in_order (node l x r))) where
    abbrev sides : Around key (in_order l) x (in_order r)
    sides = Sorted-Around key (in_order l) x (in_order r) h

    pub find_left : (j : ℕ) → j < key x → find key (node l x r) j ≡ find key l j
    unfolding find
    find_left j p = ground (arith, p)

    pub find_right : (j : ℕ) → key x < j → find key (node l x r) j ≡ find key r j
    unfolding find
    find_right j p = ground (arith, p)

    pub find_here : find key (node l x r) (key x) ≡ some x
    unfolding find
    find_here = ground arith

    pub in_left : (j : ℕ) (y : A) → find key l j ≡ some y → j < key x
    in_left j y e =
        let (p, q) = find-All (λ a. key a < key x) l j y sides.below e in omega (arith, p, q)

    pub in_right : (j : ℕ) (y : A) → find key r j ≡ some y → key x < j
    in_right j y e =
        let (p, q) = find-All (λ a. key x < key a) r j y sides.above e in omega (arith, p, q)

    first_left :
        (k : ℕ) (next : Option A)
        → k < key x
        → FirstIs l k (some x) (first_from l k (some x))
        → FirstIs (node l x r) k next (first_from (node l x r) k next)
    unfolding first_from
    first_left k next p (inl (e, all)) = inr (
      x,
      ground (arith, e, p),
      find_here,
      omega (arith, p),
      λ j y f q. elim (dec_lt j (key x)) [
        | yes m ↦ absurd (omega (arith, q, all j y (sym (find_left j m) ∙ f)))
        | no m ↦ omega (arith, m)
      ],
    )
    first_left k next p (inr (y, e, f, q, least)) =
        let m = in_left (key y) y f in
        inr (
          y,
          ground (arith, e, p),
          find_left (key y) m ∙ f,
          q,
          λ j z g i. elim (dec_lt j (key x)) [
            | yes n ↦ least j z (sym (find_left j n) ∙ g) i
            | no n ↦ omega (arith, m, n)
          ],
        )

    first_right :
        (k : ℕ) (next : Option A)
        → key x < k
        → FirstIs r k next (first_from r k next)
        → FirstIs (node l x r) k next (first_from (node l x r) k next)
    unfolding first_from
    first_right k next p (inl (e, all)) = inl (
      ground (arith, e, p),
      λ j y f. elim (dec_lt (key x) j) [
        | yes m ↦ all j y (sym (find_right j m) ∙ f)
        | no m ↦ omega (arith, p, m)
      ],
    )
    first_right k next p (inr (y, e, f, q, least)) = inr (
      y,
      ground (arith, e, p),
      find_right (key y) (in_right (key y) y f) ∙ f,
      q,
      λ j z g i. least j z (sym (find_right j (omega (arith, p, i))) ∙ g) i,
    )

    first_here :
        (k : ℕ) (next : Option A)
        → k ≡ key x
        → FirstIs (node l x r) k next (first_from (node l x r) k next)
    unfolding first_from
    first_here k next p =
        inr (x, ground (arith, p), find_here, omega (arith, p), λ j y f i. omega (arith, p, i))

  -- what holds of each node that a walk can find holds of all
  pub All-find :
      (Q : A → Type 0) (t : Tree A)
      → Sorted key (in_order t)
      → ((j : ℕ) (y : A) → find key t j ≡ some y → Q y)
      → All Q (in_order t)
  All-find Q leaf h f = tt
  All-find Q (node l x r) h f =
      let a = Sorted-Around key (in_order l) x (in_order r) h in
      All-append Q (in_order l) (x ∷ in_order r)
        (All-find Q l a.left (λ j y e. f j y (find_left l x r h j (in_left l x r h j y e) ∙ e)))
        (
          f (key x) x (find_here l x r h),
          All-find Q r a.right (λ j y e. f j y (find_right l x r h j (in_right l x r h j y e) ∙ e)),
        )

  pub first_from-FirstIs :
      (t : Tree A) (k : ℕ) (next : Option A)
      → Sorted key (in_order t)
      → FirstIs t k next (first_from t k next)
  unfolding first_from find
  first_from-FirstIs leaf k next h = inl (refl, λ j y e. cc)
  first_from-FirstIs (node l x r) k next h =
      let a = Sorted-Around key (in_order l) x (in_order r) h in
      let left = first_from-FirstIs l k (some x) a.left in
      let right = first_from-FirstIs r k next a.right in
      elim (dec_lt k (key x)) [
        | yes p ↦ first_left l x r h k next p left
        | no p ↦ elim (dec_lt (key x) k) [
          | yes q ↦ first_right l x r h k next q right
          | no q ↦ first_here l x r h k next (omega (arith, p, q))
        ]
      ]
