-- ===== src/LockTable/Visits.antt =====
-- A lock that is held is processed and put, or only put.
use scoutfs_kmod_dev.Base.{◌≡◌, not, List, sym, subst, Ret, ok, [], refl}
use scoutfs_kmod_dev.RbTree.{Tree, RbOps, IsRbOps}
use scoutfs_kmod_dev.Key.{Key}
use scoutfs_kmod_dev.Spbm.{spbm_empty}
use scoutfs_kmod_dev.LockServer.{LockNode, Message, Work, process_waiting_requests}
use scoutfs_kmod_dev.LockTable.{ServerLock, Server, lock_rank, put_server_lock, process_lock}
use scoutfs_kmod_dev.LockTable.Invariant.{Holds}
use scoutfs_kmod_dev.LockTable.Put.{put_server_lock-Puts}
use scoutfs_kmod_dev.LockTable.Each.{Visited}

module _ (rb : RbOps ServerLock) (laws : IsRbOps lock_rank rb) (P Q : LockNode → Type 0) where
  pub put-Visited :
      (t : Tree ServerLock) (s : ServerLock) (lists' : LockNode) (r : Ret)
      → Holds P t s
      → P lists'
      → (r ≡ ok → Q lists')
      → Visited P Q t s r (put_server_lock rb t (record s { lists = lists' }))
  put-Visited t s lists' r holds good wanted =
      let p = put_server_lock-Puts rb laws P t s holds lists' good in
      record {
        table = p.table;
        others = p.others;
        visited = λ x m f. subst Q (sym (p.lists x f)) (wanted m);
      }

  module _ {B : Type 0} (net : List (Key × Message) → Key → List Message → Message → Ret)
      (sv : Server B) (s : ServerLock) (lists' : LockNode) where
    -- process_waiting_requests in process_lock
    abbrev pub processed : Ret × Work
    processed =
        process_waiting_requests (net sv.sent s.key) (not (spbm_empty sv.recovery_pending))
          (record { node = lists'; sent = []; write_version = sv.write_version })

    pub process_lock-Visited :
        Holds P sv.locks s
        → P processed.1.node
        → (processed.0 ≡ ok → Q processed.1.node)
        → Visited P Q sv.locks s
            (process_lock rb net sv (record s { lists = lists' })).0
            (process_lock rb net sv (record s { lists = lists' })).1.locks
    unfolding process_lock
    process_lock-Visited holds good wanted =
        put-Visited sv.locks s processed.1.node processed.0 holds good wanted

    pub process_lock-pending :
        (process_lock rb net sv (record s { lists = lists' })).1.recovery_pending
        ≡ sv.recovery_pending
    unfolding process_lock
    process_lock-pending = refl
