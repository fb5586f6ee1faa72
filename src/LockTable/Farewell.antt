-- ===== src/LockTable/Farewell.antt =====
-- scoutfs_lock_server_farewell on a table of locks.
use scoutfs_kmod_dev.Base.{ℕ, Option, some, ◌≡◌, ◌≢◌, List, Ret, ok}
use scoutfs_kmod_dev.RbTree.{RbOps, IsRbOps, find}
use scoutfs_kmod_dev.Key.{Key}
use scoutfs_kmod_dev.Spbm.{Spbm}
use scoutfs_kmod_dev.LockServer.{LockNode, Message}
use scoutfs_kmod_dev.LockServer.Entries.{Exclusive}
use scoutfs_kmod_dev.LockServer.Keeps.{Entries}
use scoutfs_kmod_dev.LockTable.{ServerLock, Server, lock_rank}
use scoutfs_kmod_dev.LockTable.Recovery.{Records}
use scoutfs_kmod_dev.LockTable.Invariant.{IsTable}

-- no entry of the client
abbrev pub Left : ℕ → LockNode → Type 0
Left rid = Entries (λ c. c.rid ≢ rid)

module _ {B : Type 0} (rb : RbOps ServerLock) (laws : IsRbOps lock_rank rb)
    (net : List (Key × Message) → Key → List Message → Message → Ret) (rid : ℕ) where
  module _ {D : Type 0} (records : Records D) where
    abbrev pub Leaves : D → Option (Ret × Server B × D) → Type 0
    Leaves d o =
        (r : Ret) × (sv : Server B) × (d' : D) × (o ≡ some (r, sv, d'))
        × IsTable Exclusive sv.locks
        × ((records.delete d rid).0 ≡ ok
            → r ≡ ok
            → (j : ℕ) (x : ServerLock) → find lock_rank sv.locks j ≡ some x
            → Left rid x.lists)
