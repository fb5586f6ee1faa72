-- ===== src/RbTree.antt =====
-- The trees of linux/rbtree.h as their users see them: a user descends by itself and links a new
-- node where its descent ended; balancing and taking out a node are the kernel's.
pub mod Order
pub mod Search
pub mod Spine
pub mod First
use scoutfs_kmod_dev.Base.{
  ℕ, ◌<◌, ◌≡◌, ltb, ◌==◌, if◌then◌else◌, Option, none, some, List, [], ◌∷◌, ◌++◌,
}
use scoutfs_kmod_dev.Base.Lists.{Pairs}

pub data Tree (A : Type 0) : Type 0 where
  leaf : Tree A
  node : Tree A → A → Tree A → Tree A

abbrev pub in_order : {A : Type 0} → Tree A → List A
in_order leaf = []
in_order (node l x r) = in_order l ++ x ∷ in_order r

-- rb_insert_color once a node is linked, and rb_erase
pub record RbOps (A : Type 0) : Type 0 where
  pub insert_color : Tree A → Tree A
  pub erase : Tree A → A → Tree A

module _ {A : Type 0} (key : A → ℕ) where
  -- the nodes from left to right have growing keys
  abbrev pub Sorted : List A → Type 0
  Sorted = Pairs (λ a b. key a < key b)

  -- the walk of a user from the root to the node with the key
  unfoldable pub find : Tree A → ℕ → Option A
  find leaf k = none
  find (node l x r) k =
      let left = find l k in
      let right = find r k in
      if ltb k (key x) then left else if ltb (key x) k then right else some x

  -- rb_link_node where that walk ended
  unfoldable pub link : Tree A → A → Tree A
  link leaf ins = node leaf ins leaf
  link (node l x r) ins =
      let left = link l ins in
      let right = link r ins in
      if ltb (key ins) (key x)
      then node left x r
      else if ltb (key x) (key ins)
      then node l x right
      else node l x r

  -- a change of the node with the key in place
  unfoldable pub write : Tree A → ℕ → (A → A) → Tree A
  write leaf k f = leaf
  write (node l x r) k f = node (write l k f) (if key x == k then f x else x) (write r k f)

-- Both keep the order of the nodes from left to right.
pub record IsRbOps {A : Type 0} (key : A → ℕ) (rb : RbOps A) : Type 0 where
  pub insert_color_in_order : (t : Tree A) → in_order (rb.insert_color t) ≡ in_order t
  pub erase_in_order :
      (t : Tree A) (x : A) (before after : List A)
      → Sorted key (in_order t)
      → in_order t ≡ before ++ x ∷ after
      → in_order (rb.erase t x) ≡ before ++ after
