-- ===== src/LockTable/Get.antt =====
-- get_server_lock on a table of locks, without a new lock.
use scoutfs_kmod_dev.Base.{
  ℕ, ◌<◌, ◌≤◌, ◌≡◌, ◌≢◌, ◌⊎◌, true, false, Option, none, some, arith, refl, ap, sym, ◌∙◌, subst,
  inl, inr,
}
use scoutfs_kmod_dev.RbTree.{Tree, RbOps, IsRbOps, find}
use scoutfs_kmod_dev.RbTree.First.{FirstIs, first_from-FirstIs, All-find}
use scoutfs_kmod_dev.RbTree.Search.{find-key}
use scoutfs_kmod_dev.Key.{Key}
use scoutfs_kmod_dev.Key.Order.{IsKey, rank}
use scoutfs_kmod_dev.LockServer.{LockNode}
use scoutfs_kmod_dev.LockTable.{
  ServerLock, lock_rank, get_walk, set_lock, taken, hold, get_server_lock,
}
use scoutfs_kmod_dev.LockTable.Invariant.{IsTable, Holds, set_lock-find, hold-Holds}
use scoutfs_kmod_dev.LockTable.Walk.{Keys, or_next_lock, get_walk-find, get_walk-first_from}

-- A reference to the lock `s` of the table `t` is taken, and the table is `t'` then.
pub record Held (P : LockNode → Type 0) (t : Tree ServerLock) (s : ServerLock)
    (t' : Tree ServerLock) : Type 0 where
  pub holds : Holds P t' s
  pub others : (j : ℕ) → j ≢ lock_rank s → find lock_rank t' j ≡ find lock_rank t j
  pub lists : P s.lists

abbrev got : Tree ServerLock → Option ServerLock → Tree ServerLock × Option ServerLock
got t none = (t, none)
got t (some s) = hold t s

module _ (P : LockNode → Type 0) where
  pub IsTable-Keys : (t : Tree ServerLock) → IsTable P t → Keys t
  IsTable-Keys t h =
      All-find lock_rank (λ s. IsKey s.key) t h.sorted (λ j y e. let i = h.idle j y e in i.key_fits)

  pub hold-Held :
      (t : Tree ServerLock) (s : ServerLock)
      → IsTable P t
      → find lock_rank t (lock_rank s) ≡ some s
      → Held P t (taken s) (set_lock t (taken s))
  hold-Held t s h e =
      let i = h.idle (lock_rank s) s e in
      record {
        holds =
            hold-Holds P t s h.sorted e i.key_fits i.below_last i.no_reference
              (λ j x f n. h.idle j x f);
        others = λ j n. ground (arith, set_lock-find t s (taken s) e refl j, n);
        lists = i.holds;
      }

  module _ (rb : RbOps ServerLock) (laws : IsRbOps lock_rank rb) (t : Tree ServerLock)
      (h : IsTable P t) (key : Key) (fits : IsKey key) where
    -- the lock of the key, where there is one
    abbrev pub Gets : Tree ServerLock × Option ServerLock → Type 0
    Gets p =
        ((p ≡ (t, none)) × (find lock_rank t (rank key) ≡ none))
        ⊎ ((s : ServerLock) × (p.1 ≡ some s)
            × (lock_rank s ≡ rank key)
            × Held P t s p.0
            × ((x : ServerLock) × (find lock_rank t (rank key) ≡ some x) × (s.lists ≡ x.lists)))

    get_server_lock-got : get_server_lock rb t key none false ≡ got t (find lock_rank t (rank key))
    unfolding get_server_lock
    get_server_lock-got =
        flat (get_walk false t key none)
        ∙ ap (got t) (get_walk-find key fits false t none (IsTable-Keys t h))
      where
        flat :
            (p : Option ServerLock × Option ServerLock)
            → elim p.0 [ some s ↦ hold t s | none ↦ got t none ] ≡ got t p.0
        flat (some s, n) = refl
        flat (none, n) = refl

    pub get_server_lock-Gets : Gets (get_server_lock rb t key none false)
    get_server_lock-Gets =
        subst Gets (sym get_server_lock-got) (cases (find lock_rank t (rank key)) refl)
      where
        cases : (o : Option ServerLock) → find lock_rank t (rank key) ≡ o → Gets (got t o)
        cases none e = inl (refl, e)
        cases (some s) e =
            let same = find-key lock_rank t (rank key) s e in
            inr
              (taken s, refl, same, hold-Held t s h (ap (find lock_rank t) same ∙ e), (s, e, refl))

    -- the first lock from the key on, where there is one
    abbrev pub GetsNext : Tree ServerLock × Option ServerLock → Type 0
    GetsNext p =
        ((p ≡ (t, none)) × ((j : ℕ) (y : ServerLock) → find lock_rank t j ≡ some y → j < rank key))
        ⊎ ((s : ServerLock) × (p.1 ≡ some s)
            × (rank key ≤ lock_rank s)
            × Held P t s p.0
            × ((j : ℕ) (y : ServerLock)
                → find lock_rank t j ≡ some y
                → rank key ≤ j
                → lock_rank s ≤ j)
            × ((x : ServerLock) × (find lock_rank t (lock_rank s) ≡ some x)))

    holds_first :
        (o : Option ServerLock) → FirstIs lock_rank t (rank key) none o → GetsNext (got t o)
    holds_first o (inl (e, all)) = rw e (inl (refl, all))
    holds_first o (inr (x, e, f, p, least)) =
        rw e (inr (taken x, refl, p, hold-Held t x h f, least, (x, f)))

    -- Where all locks of the table are idle and in the order of their keys, get_server_lock for
    -- the next lock from a key on, whose fields fit their types, takes one reference to the lock
    -- with the least key that is not below it, and leaves every other lock as it was; or it hands
    -- back none, and changes nothing, where every key is below.
    pub get_server_lock-GetsNext : GetsNext (get_server_lock rb t key none true)
    unfolding get_server_lock
    get_server_lock-GetsNext = subst GetsNext (sym (flat (get_walk true t key none))) (
        holds_first (or_next_lock (get_walk true t key none)) (
          rw (get_walk-first_from key fits t none (IsTable-Keys t h))
            (first_from-FirstIs lock_rank t (rank key) none h.sorted)))
      where
        flat :
            (p : Option ServerLock × Option ServerLock)
            → elim p.0 [
              | some s ↦ hold t s
              | none ↦ elim p.1 [ some s ↦ hold t s | none ↦ got t none ]
            ]
              ≡ got t (or_next_lock p)
        flat (some s, n) = refl
        flat (none, some s) = refl
        flat (none, none) = refl
