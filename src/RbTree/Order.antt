-- ===== src/RbTree/Order.antt =====
-- Trees whose nodes have growing keys.
use scoutfs_kmod_dev.Base.Rules.{if_rule}
use scoutfs_kmod_dev.Base.{
  ltb, ◌==◌, ==_iff, if◌then◌else◌, subst, sym, refl, ℕ, ◌<◌, ◌≡◌, List, [], ◌∷◌, ◌++◌, arith,
}
use scoutfs_kmod_dev.Base.Lists.{All, All-append, All-append_left, All-append_right, All-imp}
use scoutfs_kmod_dev.RbTree.{Tree, leaf, node, in_order, Sorted, link, write}

module _ {A : Type 0} (key : A → ℕ) where
  -- A list around `y` is sorted where both sides are and `y` lies between them.
  pub record Around (xs : List A) (y : A) (ys : List A) : Type 0 where
    pub below : All (λ a. key a < key y) xs
    pub above : All (λ a. key y < key a) ys
    pub left : Sorted key xs
    pub right : Sorted key ys

  pub Sorted-Around :
      (xs : List A) (y : A) (ys : List A) → Sorted key (xs ++ y ∷ ys) → Around xs y ys
  Sorted-Around [] y ys h = record { below = tt; above = h.0; left = tt; right = h.1 }
  Sorted-Around (x ∷ xs) y ys h =
      let rest = Sorted-Around xs y ys h.1 in
      record {
        below = ((All-append_right (λ a. key x < key a) xs (y ∷ ys) h.0).0, rest.below);
        above = rest.above;
        left = (All-append_left (λ a. key x < key a) xs (y ∷ ys) h.0, rest.left);
        right = rest.right;
      }

  pub Around-Sorted :
      (xs : List A) (y : A) (ys : List A) → Around xs y ys → Sorted key (xs ++ y ∷ ys)
  Around-Sorted [] y ys h = (h.above, h.right)
  Around-Sorted (x ∷ xs) y ys h = (
    All-append (λ a. key x < key a) xs (y ∷ ys) h.left.0
        (h.below.0, All-imp (λ a q. omega (arith, q, h.below.0)) ys h.above),
    Around-Sorted xs y ys
        (record { below = h.below.1; above = h.above; left = h.left.1; right = h.right }),
  )

  module _ (P : A → Type 0) where
    -- The new node is the only one that linking adds.
    pub link-All :
        (t : Tree A) (ins : A) → All P (in_order t) → P ins → All P (in_order (link key t ins))
    unfolding link
    link-All leaf ins h p = (p, tt)
    link-All (node l x r) ins h p =
        let left = All-append_left P (in_order l) (x ∷ in_order r) h in
        let (here, right) = All-append_right P (in_order l) (x ∷ in_order r) h in
        let Q = λ (u : Tree A). All P (in_order u) in
        if_rule Q (ltb (key ins) (key x)) _ _
          (λ _. All-append P _ _ (link-All l ins left p) (here, right))
          (λ _.
            if_rule Q (ltb (key x) (key ins)) _ _
              (λ _. All-append P _ _ left (here, link-All r ins right p)) (λ _. h))

    pub write-All :
        (t : Tree A) (k : ℕ) (f : A → A)
        → ((a : A) → P a → key a ≡ k → P (f a))
        → All P (in_order t)
        → All P (in_order (write key t k f))
    unfolding write
    write-All leaf k f step h = tt
    write-All (node l x r) k f step h =
        let left = All-append_left P (in_order l) (x ∷ in_order r) h in
        let (here, right) = All-append_right P (in_order l) (x ∷ in_order r) h in
        All-append P _ _ (write-All l k f step left) (
          if_rule P (key x == k) (f x) x (λ t. step x here ((==_iff (key x) k).0 t)) (λ _. here),
          write-All r k f step right,
        )

  pub link-Sorted :
      (t : Tree A) (ins : A) → Sorted key (in_order t) → Sorted key (in_order (link key t ins))
  unfolding link
  link-Sorted leaf ins h = (tt, tt)
  link-Sorted (node l x r) ins h =
      let a = Sorted-Around (in_order l) x (in_order r) h in
      let Q = λ (u : Tree A). Sorted key (in_order u) in
      if_rule Q (ltb (key ins) (key x)) _ _
        (λ t. Around-Sorted (in_order (link key l ins)) x (in_order r) (record {
          below = link-All (λ a. key a < key x) l ins a.below (ground (arith, t));
          above = a.above;
          left = link-Sorted l ins a.left;
          right = a.right;
        }))
        (λ _.
          if_rule Q (ltb (key x) (key ins)) _ _
            (λ t. Around-Sorted (in_order l) x (in_order (link key r ins)) (record {
              below = a.below;
              above = link-All (λ a. key x < key a) r ins a.above (ground (arith, t));
              left = a.left;
              right = link-Sorted r ins a.right;
            }))
            (λ _. h))

  -- A change in place that keeps the key keeps the order.
  pub write-Sorted :
      (t : Tree A) (k : ℕ) (f : A → A)
      → ((a : A) → key (f a) ≡ key a)
      → Sorted key (in_order t)
      → Sorted key (in_order (write key t k f))
  unfolding write
  write-Sorted leaf k f keeps h = tt
  write-Sorted (node l x r) k f keeps h =
      let a = Sorted-Around (in_order l) x (in_order r) h in
      let same : key (if key x == k then f x else x) ≡ key x =
        if_rule (λ y. key y ≡ key x) (key x == k) (f x) x (λ _. keeps x) (λ _. refl) in
      Around-Sorted _ _ _ (record {
        below =
            subst (λ n. All (λ a. key a < n) (in_order (write key l k f))) (sym same)
              (write-All (λ a. key a < key x) l k f
                (λ b q _. subst (λ n. n < key x) (sym (keeps b)) q) a.below);
        above =
            subst (λ n. All (λ a. n < key a) (in_order (write key r k f))) (sym same)
              (write-All (λ a. key x < key a) r k f
                (λ b q _. subst (λ n. key x < n) (sym (keeps b)) q) a.above);
        left = write-Sorted l k f keeps a.left;
        right = write-Sorted r k f keeps a.right;
      })

  pub Sorted-append_left : (xs ys : List A) → Sorted key (xs ++ ys) → Sorted key xs
  Sorted-append_left [] ys h = tt
  Sorted-append_left (x ∷ xs) ys h =
      (All-append_left (λ a. key x < key a) xs ys h.0, Sorted-append_left xs ys h.1)

  pub Sorted-append_right : (xs ys : List A) → Sorted key (xs ++ ys) → Sorted key ys
  Sorted-append_right [] ys h = h
  Sorted-append_right (x ∷ xs) ys h = Sorted-append_right xs ys h.1
