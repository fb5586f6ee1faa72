-- ===== src/LockTable/Resumed.antt =====
-- finished_recovery on a table of locks, and the requests that waited for it.
use scoutfs_kmod_dev.Base.{ℕ, Option, some, ◌≡◌, ◌⊎◌, true, false, List, [], Ret, ok}
use scoutfs_kmod_dev.RbTree.{RbOps, IsRbOps, find}
use scoutfs_kmod_dev.Key.{Key}
use scoutfs_kmod_dev.Spbm.{Spbm, SpbmNode, Bitmap, spbm_empty, spbm_clear}
use scoutfs_kmod_dev.LockServer.{LockNode, Message, is_empty}
use scoutfs_kmod_dev.LockServer.Entries.{Exclusive}
use scoutfs_kmod_dev.LockTable.{ServerLock, Server, lock_rank}
use scoutfs_kmod_dev.LockTable.Invariant.{IsTable}

-- No request waits, or an invalidation is in flight whose answer goes on with the requests.
abbrev pub Settled : LockNode → Type 0
Settled n = (is_empty n.invalidated ≡ false) ⊎ (n.requested ≡ [])

module _ {B : Type 0} (bitmap : Bitmap B) (spbm_rb : RbOps (SpbmNode B)) (rb : RbOps ServerLock)
    (laws : IsRbOps lock_rank rb)
    (net : List (Key × Message) → Key → List Message → Message → Ret) where
  abbrev pub Resumes : Server B → ℕ → Option (Ret × Server B) → Type 0
  Resumes sv rid o =
      (r : Ret) × (sv' : Server B) × (o ≡ some (r, sv'))
      × IsTable Exclusive sv'.locks
      × (spbm_empty (spbm_clear bitmap spbm_rb sv.recovery_pending rid) ≡ true
          → r ≡ ok
          → (j : ℕ) (x : ServerLock) → find lock_rank sv'.locks j ≡ some x
          → Settled x.lists)
