-- ===== src/LockTable/Alloc.antt =====
-- alloc_server_lock, and get_server_lock with a new lock.
use scoutfs_kmod_dev.Base.{
  ℕ, ◌+◌, ◌^◌, ◌<◌, ◌≡◌, ◌⊎◌, if◌then◌else◌, Bool, true, false, Option, none, some, arith, refl, ap,
  sym, ◌∙◌, subst, inl, inr,
}
use scoutfs_kmod_dev.RbTree.{Tree, RbOps, IsRbOps, find, link}
use scoutfs_kmod_dev.RbTree.Search.{find-insert, insert-Sorted}
use scoutfs_kmod_dev.Key.{Key}
use scoutfs_kmod_dev.Key.Order.{IsKey, rank}
use scoutfs_kmod_dev.LockServer.{LockNode}
use scoutfs_kmod_dev.LockTable.{
  ServerLock, lock_rank, new_lock, get_walk, link_lock, set_lock, taken, hold, get_server_lock,
  alloc_server_lock,
}
use scoutfs_kmod_dev.LockTable.Invariant.{IsTable, set_lock-find, hold-Holds}
use scoutfs_kmod_dev.LockTable.Walk.{get_walk-find, link_lock-link}
use scoutfs_kmod_dev.LockTable.Get.{Held, IsTable-Keys, get_server_lock-Gets, Gets}

module _ (P : LockNode → Type 0) (rb : RbOps ServerLock) (laws : IsRbOps lock_rank rb)
    (t : Tree ServerLock) (h : IsTable P t) (key : Key) (fits : IsKey key)
    (last : rank key + 1 < 2 ^ 216) (fresh : P (new_lock key).lists) where
  -- Only a failed kzalloc hands back no lock. A lock that was there has its lists.
  abbrev pub Allocs : Bool → Tree ServerLock × Option ServerLock → Type 0
  Allocs room p =
      ((p ≡ (t, none)) × (room ≡ false))
      ⊎ ((s : ServerLock) × (p.1 ≡ some s)
          × (lock_rank s ≡ rank key)
          × Held P t s p.0
          × ((x : ServerLock) → find lock_rank t (rank key) ≡ some x → s.lists ≡ x.lists))

  abbrev added : Tree ServerLock
  added = rb.insert_color (link lock_rank t (new_lock key))

  new_lock-Held :
      find lock_rank t (rank key) ≡ none
      → Held P t (taken (new_lock key)) (set_lock added (taken (new_lock key)))
  new_lock-Held absent =
      let find1 = λ (j : ℕ). find-insert lock_rank rb laws t (new_lock key) j h.sorted absent in
      let here : find lock_rank added (rank key) ≡ some (new_lock key) =
        ground (arith, find1 (rank key)) in
      record {
        holds =
            hold-Holds P added (new_lock key)
              (insert-Sorted lock_rank rb laws t (new_lock key) h.sorted) here fits last refl
              (λ j x f n. h.idle j x (ground (arith, find1 j, f, n)));
        others = λ j n. ground (
          arith,
          set_lock-find added (new_lock key) (taken (new_lock key)) here refl j,
          find1 j,
          n,
        );
        lists = fresh;
      }

  get_server_lock-new :
      find lock_rank t (rank key) ≡ none
      → get_server_lock rb t key (some (new_lock key)) false ≡ hold added (new_lock key)
  unfolding get_server_lock
  get_server_lock-new absent =
      flat (get_walk false t key none)
        (get_walk-find key fits false t none (IsTable-Keys P t h) ∙ absent)
      ∙ ap (λ (x : Tree ServerLock). hold (rb.insert_color x) (new_lock key))
          (link_lock-link t (new_lock key) fits (IsTable-Keys P t h))
    where
      flat :
          (p : Option ServerLock × Option ServerLock)
          → p.0 ≡ none
          → elim p.0 [
            | some s ↦ hold t s
            | none ↦ hold (rb.insert_color (link_lock t (new_lock key))) (new_lock key)
          ]
            ≡ hold (rb.insert_color (link_lock t (new_lock key))) (new_lock key)
      flat (some s, n) e = cc
      flat (none, n) e = refl

  pub alloc_server_lock-Allocs : (room : Bool) → Allocs room (alloc_server_lock rb room t key)
  unfolding alloc_server_lock
  alloc_server_lock-Allocs room =
      cases (get_server_lock rb t key none false) (get_server_lock-Gets P rb laws t h key fits)
    where
      after : Tree ServerLock × Option ServerLock → Tree ServerLock × Option ServerLock
      after p = elim p.1 [
        | some s ↦ (p.0, some s)
        | none ↦
            if room then get_server_lock rb p.0 key (some (new_lock key)) false else (p.0, none)
      ]

      fresh_case :
          (room : Bool)
          → find lock_rank t (rank key) ≡ none
          → Allocs room
              (if room then get_server_lock rb t key (some (new_lock key)) false else (t, none))
      fresh_case true absent =
          rw (get_server_lock-new absent)
            (inr (taken (new_lock key), refl, refl, new_lock-Held absent, λ x f. cc))
      fresh_case false absent = inl (refl, refl)

      cases :
          (p : Tree ServerLock × Option ServerLock)
          → Gets P rb laws t h key fits p
          → Allocs room (after p)
      cases p (inl (e, absent)) =
          subst (λ q. Allocs room (after q)) (sym e) (fresh_case room absent)
      cases (t', none) (inr (s, e, same, held, _)) = cc
      cases (t', some x) (inr (s, e, same, held, old)) =
          inr (s, e, same, held, λ y f. ground (arith, old, f))
