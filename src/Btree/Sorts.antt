-- ===== src/Btree/Sorts.antt =====
-- The order of the offsets in a block's tree, by numbers that stand for their items' keys.
use scoutfs_kmod_dev.Base.{[], ◌∷◌, ℕ, List, ◌≡◌, ◌++◌, ◌∷◌, inl, ◌≢◌, ◌<◌, inr, arith, refl}
use scoutfs_kmod_dev.Base.Lists.{All-append, All-append_left, All-append_right}
use scoutfs_kmod_dev.RbTree.{Sorted}
use scoutfs_kmod_dev.RbTree.Order.{Sorted-Around, Around-Sorted}
use scoutfs_kmod_dev.Btree.Nodes.{Among, Among-append, All-Among, Among-All}

pub Sorted_remove :
    (key : ℕ → ℕ) (xs : List ℕ) (y : ℕ) (ys : List ℕ)
    → Sorted key (xs ++ y ∷ ys)
    → Sorted key (xs ++ ys)
Sorted_remove key [] y ys h = h.1
Sorted_remove key (x ∷ xs) y ys h =
    let P = λ (a : ℕ). key x < key a in
    (
      All-append P xs ys (All-append_left P xs (y ∷ ys) h.0) (All-append_right P xs (y ∷ ys) h.0).1,
      Sorted_remove key xs y ys h.1,
    )

-- no other item of the list has the same key
pub Sorted_other :
    (key : ℕ → ℕ) (xs : List ℕ) (y : ℕ) (ys : List ℕ)
    → Sorted key (xs ++ y ∷ ys)
    → (o : ℕ) → Among o (xs ++ ys)
    → key o ≢ key y
Sorted_other key xs y ys h o m =
    let a = Sorted-Around key xs y ys h in
    elim ((Among-append o xs ys).0 m) [
      | inl k ↦ λ e. omega (arith, e, Among-All (λ x. key x < key y) xs a.below o k)
      | inr k ↦ λ e. omega (arith, e, Among-All (λ x. key y < key x) ys a.above o k)
    ]

pub Sorted_agree :
    (key key' : ℕ → ℕ) (xs : List ℕ)
    → ((o : ℕ) → Among o xs → key' o ≡ key o)
    → Sorted key xs
    → Sorted key' xs
Sorted_agree key key' [] same h = tt
Sorted_agree key key' (x ∷ xs) same h =
    let here = same x (inl refl) in
    (
      All-Among (λ a. key' x < key' a) xs
          (λ o m.
            let there = same o (inr m) in
            let lt = Among-All (λ a. key x < key a) xs h.0 o m in omega (arith, here, there, lt)),
      Sorted_agree key key' xs (λ o m. same o (inr m)) h.1,
    )

-- An item stands for another that has the same key.
pub Sorted_replace :
    (key key' : ℕ → ℕ) (xs : List ℕ) (y z : ℕ) (ys : List ℕ)
    → key' z ≡ key y
    → ((o : ℕ) → Among o (xs ++ ys) → key' o ≡ key o)
    → Sorted key (xs ++ y ∷ ys)
    → Sorted key' (xs ++ z ∷ ys)
Sorted_replace key key' xs y z ys new same h =
    let a = Sorted-Around key xs y ys h in
    let front : (o : ℕ) → Among o xs → key' o ≡ key o =
      λ o m. same o ((Among-append o xs ys).1 (inl m)) in
    let back : (o : ℕ) → Among o ys → key' o ≡ key o =
      λ o m. same o ((Among-append o xs ys).1 (inr m)) in
    Around-Sorted key' xs z ys (record {
      below =
          All-Among (λ x. key' x < key' z) xs
            (λ o m.
              let f = front o m in
              let lt = Among-All (λ x. key x < key y) xs a.below o m in omega (arith, f, lt, new));
      above =
          All-Among (λ x. key' z < key' x) ys
            (λ o m.
              let f = back o m in
              let lt = Among-All (λ x. key y < key x) ys a.above o m in omega (arith, f, lt, new));
      left = Sorted_agree key key' xs front a.left;
      right = Sorted_agree key key' ys back a.right;
    })
