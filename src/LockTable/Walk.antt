-- ===== src/LockTable/Walk.antt =====
-- The walk of get_server_lock, as the walks of RbTree.
use scoutfs_kmod_dev.Base.{
  ℕ, ◌≡◌, ltb, if◌then◌else◌, Bool, true, false, compare, Ordering, Option, none, some, ◌∷◌, arith,
  refl, ap, ◌∙◌,
}
use scoutfs_kmod_dev.Base.Lists.{All, All-append_left, All-append_right}
use scoutfs_kmod_dev.RbTree.{Tree, leaf, node, in_order, find, link}
use scoutfs_kmod_dev.RbTree.First.{first_from}
use scoutfs_kmod_dev.Key.{Key, key_compare}
use scoutfs_kmod_dev.Key.Order.{IsKey, rank, key_compare-rank}
use scoutfs_kmod_dev.LockTable.{ServerLock, lock_rank, get_walk, link_lock}

abbrev pub Keys : Tree ServerLock → Type 0
Keys t = All (λ s. IsKey s.key) (in_order t)

-- the comparison of two keys as the tests of RbTree's walks
compare_walk {ℓ} :
    {A : Type ℓ} (a b : Key) (l e r : A)
    → IsKey a
    → IsKey b
    → elim (key_compare a b) [ Ordering.lt ↦ l | Ordering.gt ↦ r | Ordering.eq ↦ e ]
      ≡ (if ltb (rank a) (rank b) then l else if ltb (rank b) (rank a) then r else e)
compare_walk a b l e r h k = rw (key_compare-rank a b h k) (walk (rank a) (rank b))
  where
    walk :
        (m n : ℕ)
        → elim (compare m n) [ Ordering.lt ↦ l | Ordering.gt ↦ r | Ordering.eq ↦ e ]
          ≡ (if ltb m n then l else if ltb n m then r else e)
    walk m n = ground arith

-- the lock of the key, else the next one
abbrev pub or_next_lock : Option ServerLock × Option ServerLock → Option ServerLock
or_next_lock (some s, next) = some s
or_next_lock (none, next) = next

module _ (key : Key) (fits : IsKey key) where
  pub get_walk-find :
      (or_next : Bool) (t : Tree ServerLock) (next : Option ServerLock)
      → Keys t
      → (get_walk or_next t key next).0 ≡ find lock_rank t (rank key)
  unfolding get_walk find
  get_walk-find or_next leaf next h = refl
  get_walk-find or_next (node l x r) next h =
      let left = All-append_left (λ s. IsKey s.key) (in_order l) (x ∷ in_order r) h in
      let right = All-append_right (λ s. IsKey s.key) (in_order l) (x ∷ in_order r) h in
      let next' = if or_next then some x else next in
      let a = get_walk-find or_next l next' left in
      let b = get_walk-find or_next r next right.1 in
      rw
        (compare_walk key x.key (get_walk or_next l key next') (some x, next)
          (get_walk or_next r key next) fits right.0)
        (ground (arith, a, b))

  pub get_walk-first_from :
      (t : Tree ServerLock) (next : Option ServerLock)
      → Keys t
      → or_next_lock (get_walk true t key next) ≡ first_from lock_rank t (rank key) next
  unfolding get_walk first_from
  get_walk-first_from leaf next h = refl
  get_walk-first_from (node l x r) next h =
      let left = All-append_left (λ s. IsKey s.key) (in_order l) (x ∷ in_order r) h in
      let right = All-append_right (λ s. IsKey s.key) (in_order l) (x ∷ in_order r) h in
      let a = get_walk-first_from l (some x) left in
      let b = get_walk-first_from r next right.1 in
      let e = ap or_next_lock (
        compare_walk key x.key (get_walk true l key (some x)) (some x, next)
          (get_walk true r key next) fits right.0) in
      e ∙ sides (ltb (rank key) (rank x.key)) (ltb (rank x.key) (rank key)) _ _ _ _ a b
    where
      sides :
          (m n : Bool) (p q : Option ServerLock × Option ServerLock) (u v : Option ServerLock)
          → or_next_lock p ≡ u
          → or_next_lock q ≡ v
          → or_next_lock (if m then p else if n then q else (some x, next))
            ≡ (if m then u else if n then v else some x)
      sides true n p q u v a b = a
      sides false true p q u v a b = b
      sides false false p q u v a b = refl

pub link_lock-link :
    (t : Tree ServerLock) (ins : ServerLock)
    → IsKey ins.key
    → Keys t
    → link_lock t ins ≡ link lock_rank t ins
unfolding link_lock link
link_lock-link leaf ins fits h = refl
link_lock-link (node l x r) ins fits h =
    let left = All-append_left (λ s. IsKey s.key) (in_order l) (x ∷ in_order r) h in
    let right = All-append_right (λ s. IsKey s.key) (in_order l) (x ∷ in_order r) h in
    rw
      (
        compare_walk ins.key x.key (node (link_lock l ins) x r) (node l x r)
            (node l x (link_lock r ins)) fits right.0,
        link_lock-link l ins fits left,
        link_lock-link r ins fits right.1,
      )
      refl
