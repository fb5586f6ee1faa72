-- ===== src/LockTable/Put.antt =====
-- put_server_lock on a lock of the table.
use scoutfs_kmod_dev.Base.{
  ℕ, ◌-◌, ◌≡◌, ◌≢◌, ◌==◌, if◌then◌else◌, false, some, arith, refl, sym, ap, subst, Bool-cases, inl,
  inr,
}
use scoutfs_kmod_dev.RbTree.{Tree, RbOps, IsRbOps, in_order, Sorted, find}
use scoutfs_kmod_dev.RbTree.Search.{find-erase, erase-Sorted}
use scoutfs_kmod_dev.LockServer.{LockNode}
use scoutfs_kmod_dev.LockTable.{ServerLock, lock_rank, put_server_lock, set_lock, is_unused}
use scoutfs_kmod_dev.LockTable.Invariant.{
  Idle, IsTable, Holds, set_lock-find, set_lock-Sorted, unused,
}

-- The lock `s` is given back to the table `t`, which becomes `t'`.
pub record Puts (P : LockNode → Type 0) (t : Tree ServerLock) (s : ServerLock)
    (t' : Tree ServerLock) : Type 0 where
  pub table : IsTable P t'
  pub others : (j : ℕ) → j ≢ lock_rank s → find lock_rank t' j ≡ find lock_rank t j
  pub lists : (x : ServerLock) → find lock_rank t' (lock_rank s) ≡ some x → x.lists ≡ s.lists

module _ (rb : RbOps ServerLock) (laws : IsRbOps lock_rank rb) (P : LockNode → Type 0)
    (t : Tree ServerLock) (s0 : ServerLock) (held : Holds P t s0) (lists' : LockNode)
    (good : P lists') where
  abbrev s : ServerLock
  s = record s0 { lists = lists' }

  abbrev s' : ServerLock
  s' = record s { refcount = s.refcount - 1 }

  abbrev t1 : Tree ServerLock
  t1 = set_lock t s'

  find1 :
      (j : ℕ) → find lock_rank t1 j ≡ (if j == lock_rank s0 then some s' else find lock_rank t j)
  find1 = set_lock-find t s0 s' held.held refl

  found1 : find lock_rank t1 (lock_rank s0) ≡ some s'
  found1 = ground (arith, find1 (lock_rank s0))

  sorted1 : Sorted lock_rank (in_order t1)
  sorted1 = set_lock-Sorted t s' held.sorted

  same_lists : (x : ServerLock) → s' ≡ x → x.lists ≡ s.lists
  same_lists x e = sym (ap (λ (y : ServerLock). y.lists) e)

  keep : is_unused s' ≡ false → Puts P t s t1
  keep e = record {
    table = record {
      sorted = sorted1;
      idle = λ j x f. elim (Bool-cases (j == lock_rank s0)) [
        | inl m ↦
            let same : s' ≡ x = ground (arith, find1 j, f, m) in
            subst (Idle P) same (record {
              key_fits = held.key_fits;
              below_last = held.below_last;
              no_reference = omega (arith, held.one_reference);
              used = ground (arith, e, held.one_reference);
              holds = good;
            })
        | inr m ↦ held.others j x (ground (arith, find1 j, f, m)) (ground (arith, m))
      ];
    };
    others = λ j n. ground (arith, find1 j, n);
    lists = λ x f. same_lists x (ground (arith, found1, f));
  }

  drop : Puts P t s (rb.erase t1 s')
  drop =
      let gone = find-erase lock_rank rb laws t1 (lock_rank s0) s' sorted1 found1 in
      record {
        table = record {
          sorted = erase-Sorted lock_rank rb laws t1 (lock_rank s0) s' sorted1 found1;
          idle = λ j x f.
              held.others j x (ground (arith, gone j, find1 j, f)) (ground (arith, gone j, f));
        };
        others = λ j n. ground (arith, gone j, find1 j, n);
        lists = λ x f. ground (arith, gone (lock_rank s0), f);
      }

  pub put_server_lock-Puts : Puts P t s (put_server_lock rb t s)
  unfolding put_server_lock
  put_server_lock-Puts = elim (Bool-cases (is_unused s')) [
    | inl e ↦ rw e drop
    | inr e ↦ rw e (keep e)
  ]

  -- A lock with some client's entry stays.
  pub put_server_lock-stays :
      unused lists' ≡ false → find lock_rank (put_server_lock rb t s) (lock_rank s0) ≡ some s'
  unfolding put_server_lock
  put_server_lock-stays used = let e : is_unused s' ≡ false = ground (arith, used) in rw e found1
