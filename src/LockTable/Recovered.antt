-- ===== src/LockTable/Recovered.antt =====
-- scoutfs_lock_server_recover_response on a table of locks.
use scoutfs_kmod_dev.LockTable.Granted.{Any}
use scoutfs_kmod_dev.Base.{
  ℕ, Option, some, ◌≡◌, List, Ret, ok, err, einval, Bool, false, true, Errno,
}
use scoutfs_kmod_dev.RbTree.{RbOps, IsRbOps}
use scoutfs_kmod_dev.Key.{Key, key_set_zeros, key_inc}
use scoutfs_kmod_dev.Spbm.{Spbm, SpbmNode, Bitmap, spbm_test}
use scoutfs_kmod_dev.LockServer.{Message, is_empty}
use scoutfs_kmod_dev.LockTable.{ServerLock, Server, lock_rank}
use scoutfs_kmod_dev.LockTable.Recovery.{finished_recovery}
use scoutfs_kmod_dev.LockTable.Invariant.{IsTable}
use scoutfs_kmod_dev.LockTable.InTurn.{RecoversAll}

module _ {B : Type 0} (bitmap : Bitmap B) (spbm_rb : RbOps (SpbmNode B)) (rb : RbOps ServerLock)
    (laws : IsRbOps lock_rank rb)
    (net : List (Key × Message) → Key → List Message → Message → Ret) where
  -- The operation comes to an end with a well-formed table.
  abbrev pub Returns : Option (Ret × Server B) → Type 0
  Returns o = (r : Ret) × (sv : Server B) × (o ≡ some (r, sv)) × IsTable Any sv.locks

  module _ (recover_request : ℕ → Key → Ret) (fuel : ℕ) (entry_room lock_room : ℕ → Bool)
      (sv : Server B) (rid : ℕ) (locks : List (Key × ℕ)) where
    -- What a recovery response answers and leaves behind: einval where the client is not in
    -- recovery; without locks, the client has recovered; otherwise its locks are recovered in turn,
    -- and where all are, the request for the next ones is sent.
    pub record Responds (r : Ret) (sv' : Server B) : Type 0 where
      pub table : IsTable Any sv'.locks
      pub refuses :
          spbm_test bitmap spbm_rb sv.recovery_pending rid ≡ false → (r ≡ err einval) × (sv' ≡ sv)
      pub finishes :
          spbm_test bitmap spbm_rb sv.recovery_pending rid ≡ true
          → is_empty locks ≡ true
          → finished_recovery bitmap spbm_rb rb net fuel sv rid ≡ some (r, sv')
      pub recovers :
          spbm_test bitmap spbm_rb sv.recovery_pending rid ≡ true
          → is_empty locks ≡ false
          → (q : Ret) × (k : Key) × RecoversAll sv.locks rid key_set_zeros locks q k sv'.locks
            × (q ≡ ok → r ≡ recover_request rid (key_inc k))
            × ((e : Errno) → q ≡ err e → r ≡ err e)

    abbrev pub Response : Option (Ret × Server B) → Type 0
    Response o = (r : Ret) × (sv' : Server B) × (o ≡ some (r, sv')) × Responds r sv'
