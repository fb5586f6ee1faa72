-- ===== src/LockTable/Invariant.antt =====
-- The table's invariant, and how the lookup of a lock and its release keep it.
use scoutfs_kmod_dev.Base.{
  Bool-cases, ==_iff, ℕ, ◌+◌, ◌^◌, ◌<◌, ◌≡◌, ◌≢◌, ◌==◌, ◌&&◌, inl, inr, if◌then◌else◌, Bool, false,
  Option, none, some, arith, refl, ap, ◌∙◌,
}
use scoutfs_kmod_dev.RbTree.{Tree, in_order, Sorted, find}
use scoutfs_kmod_dev.RbTree.Order.{write-Sorted}
use scoutfs_kmod_dev.RbTree.Search.{find-write}
use scoutfs_kmod_dev.Key.{Key}
use scoutfs_kmod_dev.Key.Order.{IsKey}
use scoutfs_kmod_dev.LockServer.{LockNode, is_empty}
use scoutfs_kmod_dev.LockTable.{ServerLock, lock_rank, set_lock, taken}

abbrev pub unused : LockNode → Bool
unused n = is_empty n.granted && is_empty n.requested && is_empty n.invalidated

-- A lock that nobody has a reference to: some client's entry is on its lists, its key is below the
-- greatest, and `P` holds of its lists.
pub record Idle (P : LockNode → Type 0) (s : ServerLock) : Type 0 where
  pub key_fits : IsKey s.key
  pub below_last : lock_rank s + 1 < 2 ^ 216
  pub no_reference : s.refcount ≡ 0
  pub used : unused s.lists ≡ false
  pub holds : P s.lists

-- The locks stand in the order of their keys, and all are idle.
pub record IsTable (P : LockNode → Type 0) (t : Tree ServerLock) : Type 0 where
  pub sorted : Sorted lock_rank (in_order t)
  pub idle : (j : ℕ) (s : ServerLock) → find lock_rank t j ≡ some s → Idle P s

-- One lock is held; all others are idle.
pub record Holds (P : LockNode → Type 0) (t : Tree ServerLock) (s : ServerLock) : Type 0 where
  pub sorted : Sorted lock_rank (in_order t)
  pub held : find lock_rank t (lock_rank s) ≡ some s
  pub key_fits : IsKey s.key
  pub below_last : lock_rank s + 1 < 2 ^ 216
  pub one_reference : s.refcount ≡ 1
  pub others : (j : ℕ) (x : ServerLock) → find lock_rank t j ≡ some x → j ≢ lock_rank s → Idle P x

pub set_lock-find :
    (t : Tree ServerLock) (s0 s : ServerLock)
    → find lock_rank t (lock_rank s) ≡ some s0
    → s0.key ≡ s.key
    → (j : ℕ)
    → find lock_rank (set_lock t s) j ≡ (if j == lock_rank s then some s else find lock_rank t j)
set_lock-find t s0 s found same j =
    let change = λ (x : ServerLock). record x { refcount = s.refcount; lists = s.lists } in
    let run = find-write lock_rank t (lock_rank s) change j (λ _. refl) in
    let is_s : change s0 ≡ s = ap (λ (k : Key). record s { key = k }) same in
    elim (Bool-cases (j == lock_rank s)) [
      | inl e ↦
          let at : j ≡ lock_rank s = (==_iff j (lock_rank s)).0 e in
          let here : find lock_rank t j ≡ some s0 = ap (find lock_rank t) at ∙ found in
          run ∙ ground (arith, e, here, is_s)
      | inr e ↦ run ∙ other e (find lock_rank t j)
    ]
  where
    other :
        (j == lock_rank s) ≡ false
        → (o : Option ServerLock)
        → elim o [
          | none ↦ none
          | some a ↦
              some (
                if j == lock_rank s then record a { refcount = s.refcount; lists = s.lists } else a)
        ]
          ≡ (if j == lock_rank s then some s else o)
    other e none = ground (arith, e)
    other e (some a) = ground (arith, e)

pub set_lock-Sorted :
    (t : Tree ServerLock) (s : ServerLock)
    → Sorted lock_rank (in_order t)
    → Sorted lock_rank (in_order (set_lock t s))
set_lock-Sorted t s h = write-Sorted lock_rank t (lock_rank s) _ (λ _. refl) h

module _ (P : LockNode → Type 0) where
  -- A reference to an idle lock is taken.
  pub hold-Holds :
      (t : Tree ServerLock) (s : ServerLock)
      → Sorted lock_rank (in_order t)
      → find lock_rank t (lock_rank s) ≡ some s
      → IsKey s.key
      → lock_rank s + 1 < 2 ^ 216
      → s.refcount ≡ 0
      → ((j : ℕ) (x : ServerLock) → find lock_rank t j ≡ some x → j ≢ lock_rank s → Idle P x)
      → Holds P (set_lock t (taken s)) (taken s)
  hold-Holds t s h found fits last zero others = record {
    sorted = set_lock-Sorted t (taken s) h;
    held = ground (arith, set_lock-find t s (taken s) found refl (lock_rank s));
    key_fits = fits;
    below_last = last;
    one_reference = omega (arith, zero);
    others =
        λ j x e n. others j x (ground (arith, set_lock-find t s (taken s) found refl j, e, n)) n;
  }
