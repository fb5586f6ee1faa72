-- ===== src/Avl/Balance.antt =====
-- One rotation step rebuilds the balance of a node whose subtrees differ in height by two.
use scoutfs_kmod_dev.Base.{ℕ, ◌+◌, ◌≤◌, ◌<◌, ◌≡◌, max, u8, arith, ltb, false, if◌then◌else◌}
use scoutfs_kmod_dev.Base.Rules.{if_rule}
use scoutfs_kmod_dev.Avl.{
  Avl, nil, node, node_height, set_height, rotate_right, rotate_left, ltb, right_heavy,
  rotate_imbalance, left_heavy, false,
}

-- Every node has its height, and subtrees whose heights differ by one at most.
abbrev pub IsAvl : {A : Type 0} → Avl A → Type 0
IsAvl nil = Unit
IsAvl (node l _ h r) =
    (h ≡ 1 + max (node_height l) (node_height r))
    × (node_height l ≤ node_height r + 1)
    × (node_height r ≤ node_height l + 1)
    × IsAvl l
    × IsAvl r

-- The result is balanced, and as high as the higher one of the subtrees of heights `m` and `n` or
-- one higher; one higher where the two differ by one at most.
abbrev pub Joins : {A : Type 0} → ℕ → ℕ → Avl A → Type 0
Joins m n t =
    IsAvl t
    × (max m n ≤ node_height t)
    × (node_height t ≤ 1 + max m n)
    × (m ≤ n + 1 → n ≤ m + 1 → node_height t ≡ 1 + max m n)

module _ {A : Type 0} where
  left_single :
      (l : Avl A) (x : A) (h : ℕ) (rl : Avl A) (y : A) (hy : ℕ) (rr : Avl A)
      → IsAvl l
      → IsAvl (node rl y hy rr)
      → hy ≡ node_height l + 2
      → hy < 250
      → node_height rl ≤ node_height rr
      → Joins (node_height l) hy (rotate_left (node l x h (node rl y hy rr)))
  unfolding rotate_left set_height node_height u8
  left_single l x h rl y hy rr hl hr e b q = ground arith

  left_double :
      (l : Avl A) (x : A) (h : ℕ) (a : Avl A) (z : A) (hz : ℕ) (b : Avl A) (y : A) (hy : ℕ)
      (rr : Avl A)
      → IsAvl l
      → IsAvl (node (node a z hz b) y hy rr)
      → hy ≡ node_height l + 2
      → hy < 250
      → node_height rr < hz
      → Joins
          (node_height l)
          hy
          (rotate_left (node l x h (rotate_right (node (node a z hz b) y hy rr))))
  unfolding rotate_left rotate_right set_height node_height u8
  left_double l x h a z hz b y hy rr hl hr e lim q = ground arith

  right_single :
      (ll : Avl A) (y : A) (hy : ℕ) (lr : Avl A) (x : A) (h : ℕ) (r : Avl A)
      → IsAvl (node ll y hy lr)
      → IsAvl r
      → hy ≡ node_height r + 2
      → hy < 250
      → node_height lr ≤ node_height ll
      → Joins hy (node_height r) (rotate_right (node (node ll y hy lr) x h r))
  unfolding rotate_right set_height node_height u8
  right_single ll y hy lr x h r hl hr e b q = ground arith

  right_double :
      (ll : Avl A) (y : A) (hy : ℕ) (a : Avl A) (z : A) (hz : ℕ) (b : Avl A) (x : A) (h : ℕ)
      (r : Avl A)
      → IsAvl (node ll y hy (node a z hz b))
      → IsAvl r
      → hy ≡ node_height r + 2
      → hy < 250
      → node_height ll < hz
      → Joins hy
          (node_height r)
          (rotate_right (node (rotate_left (node ll y hy (node a z hz b))) x h r))
  unfolding rotate_left rotate_right set_height node_height u8
  right_double ll y hy a z hz b x h r hl hr e lim q = ground arith

  lean_right :
      (l : Avl A) (x : A) (h : ℕ) (r : Avl A)
      → IsAvl l
      → IsAvl r
      → node_height r ≡ node_height l + 2
      → node_height r < 250
      → Joins
          (node_height l)
          (node_height r)
          (rotate_left (node l x h (if left_heavy 0 r then rotate_right r else r)))
  unfolding node_height left_heavy
  lean_right l x h nil hl hr e b = absurd (omega (arith, e))
  lean_right l x h (node nil y hy rr) hl hr e b =
      if_rule (λ (u : Avl A). Joins (node_height l) hy (rotate_left (node l x h u)))
        (ltb (node_height rr + 0) 0) _ _ (λ t. absurd (ground (arith, t)))
        (λ _. left_single l x h nil y hy rr hl hr e b (omega arith))
  lean_right l x h (node (node a z hz c) y hy rr) hl hr e b =
      if_rule (λ (u : Avl A). Joins (node_height l) hy (rotate_left (node l x h u)))
        (ltb (node_height rr + 0) hz) _ _
        (λ t. left_double l x h a z hz c y hy rr hl hr e b (ground (arith, t)))
        (λ t. left_single l x h (node a z hz c) y hy rr hl hr e b (ground (arith, t)))

  lean_left :
      (l : Avl A) (x : A) (h : ℕ) (r : Avl A)
      → IsAvl l
      → IsAvl r
      → node_height l ≡ node_height r + 2
      → node_height l < 250
      → Joins
          (node_height l)
          (node_height r)
          (rotate_right (node (if right_heavy 0 l then rotate_left l else l) x h r))
  unfolding node_height right_heavy
  lean_left nil x h r hl hr e b = absurd (omega (arith, e))
  lean_left (node ll y hy nil) x h r hl hr e b =
      if_rule (λ (u : Avl A). Joins hy (node_height r) (rotate_right (node u x h r)))
        (ltb (node_height ll + 0) 0) _ _ (λ t. absurd (ground (arith, t)))
        (λ _. right_single ll y hy nil x h r hl hr e b (omega arith))
  lean_left (node ll y hy (node a z hz c)) x h r hl hr e b =
      if_rule (λ (u : Avl A). Joins hy (node_height r) (rotate_right (node u x h r)))
        (ltb (node_height ll + 0) hz) _ _
        (λ t. right_double ll y hy a z hz c x h r hl hr e b (ground (arith, t)))
        (λ t. right_single ll y hy (node a z hz c) x h r hl hr e b (ground (arith, t)))

  even :
      (l : Avl A) (x : A) (h : ℕ) (r : Avl A)
      → IsAvl l
      → IsAvl r
      → h ≡ 1 + max (node_height l) (node_height r)
      → ltb (node_height l + 1) (node_height r) ≡ false
      → ltb (node_height r + 1) (node_height l) ≡ false
      → Joins (node_height l) (node_height r) (node l x h r)
  unfolding node_height
  even l x h r hl hr e t u = ground (arith, t, u, e)

  -- The step at a node whose subtrees are balanced and differ by two at most.
  pub rotate_imbalance-Joins :
      (l : Avl A) (x : A) (h : ℕ) (r : Avl A)
      → IsAvl l
      → IsAvl r
      → h ≡ 1 + max (node_height l) (node_height r)
      → node_height l ≤ node_height r + 2
      → node_height r ≤ node_height l + 2
      → h < 250
      → Joins (node_height l) (node_height r) (rotate_imbalance (node l x h r))
  unfolding rotate_imbalance right_heavy left_heavy
  rotate_imbalance-Joins l x h r hl hr e p q b =
      let Q = Joins (node_height l) (node_height r) in
      if_rule Q (ltb (node_height l + 1) (node_height r)) _ _
        (λ t. lean_right l x h r hl hr (ground (arith, t, q)) (omega (arith, e, b)))
        (λ t.
          if_rule Q (ltb (node_height r + 1) (node_height l)) _ _
            (λ u. lean_left l x h r hl hr (ground (arith, u, p)) (omega (arith, e, b)))
            (λ u. even l x h r hl hr e t u))
