-- ===== src/LockTable/Tests.antt =====
-- The lock server's theorems at concrete tables of locks.
use scoutfs_kmod_dev.Base.{
  ℕ, ◌≡◌, Bool, true, Option, none, some, List, [], ◌∷◌, arith, refl, Ret, ok, err, enoent,
  if◌then◌else◌, ◌==◌,
}
use scoutfs_kmod_dev.RbTree.{Tree, leaf, node, in_order, RbOps, IsRbOps, find, write}
use scoutfs_kmod_dev.RbTree.First.{find-All}
use scoutfs_kmod_dev.RbTree.Spine.{spine, spine_ops, spine-IsRbOps, drop_key}
use scoutfs_kmod_dev.Key.Order.{IsKey}
use scoutfs_kmod_dev.Key.{Key, key_compare, key_inc, key_set_zeros, scoutfs_cmp}
use scoutfs_kmod_dev.Spbm.{spbm_empty}
use scoutfs_kmod_dev.LockServer.{
  ClientEntry, Message, find_entry, invalidation_mode, process_waiting_requests, process_requests,
  invalidate_grants, grant_request, client_entries_compatible, del_entry, old_mode, is_write_mode,
}
use scoutfs_kmod_dev.LockServer.Entries.{Exclusive}
use scoutfs_kmod_dev.LockTable.{
  ServerLock, Server, lock_rank, server_request, server_response, get_server_lock, each_lock,
  get_walk, leave_lock, free_entries, has_entry, process_lock, put_server_lock, write, spbm_empty,
}
use scoutfs_kmod_dev.LockTable.Recovery.{
  Records, server_farewell, recover_response, recover_response,
}
use scoutfs_kmod_dev.LockTable.Invariant.{Idle, IsTable}
use scoutfs_kmod_dev.LockTable.Get.{GetsNext, get_server_lock-GetsNext}
use scoutfs_kmod_dev.LockTable.Requests.{Updates, server_request-Updates, server_response-Updates}

abbrev client : ℕ → ℕ → ℕ → ClientEntry
client rid net_id mode = record { rid = rid; net_id = net_id; mode = mode }

abbrev inode_key : ℕ → Key
inode_key ino = record { zone = 4; first = ino; type = 1; second = 0; third = 0; fourth = 0 }

-- client 1 writes
abbrev written : ServerLock
written = record {
  refcount = 0;
  key = inode_key 1;
  lists = record { granted = client 1 10 2 ∷ []; requested = []; invalidated = [] };
}

-- client 1 was asked to give up writing for client 2
abbrev asked : ServerLock
asked = record {
  refcount = 0;
  key = inode_key 7;
  lists = record { granted = []; requested = client 2 20 1 ∷ []; invalidated = client 1 11 2 ∷ [] };
}

abbrev locks : Tree ServerLock
locks = spine (written ∷ asked ∷ [])

written-Idle : Idle Exclusive written
written-Idle = record {
  key_fits = ground arith;
  below_last = omega arith;
  no_reference = refl;
  used = refl;
  holds = (tt, tt);
}

asked-Idle : Idle Exclusive asked
asked-Idle = record {
  key_fits = ground arith;
  below_last = omega arith;
  no_reference = refl;
  used = refl;
  holds = (tt, tt);
}

locks-IsTable : IsTable Exclusive locks
locks-IsTable = record {
  sorted = ((omega arith, tt), (tt, tt));
  idle =
      λ j s f. (find-All lock_rank (Idle Exclusive) locks j s (written-Idle, (asked-Idle, tt)) f).0;
}

abbrev server : Server (ℕ → Bool)
server = record { locks = locks; recovery_pending = leaf; sent = []; write_version = 4 }

-- client 2 is in recovery
abbrev recovering : Server (ℕ → Bool)
recovering = record server {
  recovery_pending = node leaf (record { index = 0; bits = λ n. n == 2 }) leaf;
}

abbrev rb : RbOps ServerLock
rb = spine_ops lock_rank

rb-IsRbOps : IsRbOps lock_rank rb
rb-IsRbOps = spine-IsRbOps lock_rank

abbrev delivers : List (Key × Message) → Key → List Message → Message → Ret
delivers _ _ _ _ = ok

-- one client's record
abbrev records : Records (Option ℕ)
records = record {
  lookup = λ d rid. elim d [ none ↦ err enoent | some r ↦ if r == rid then ok else err enoent ];
  insert = λ d rid. (ok, some rid);
  delete =
      λ d rid. (elim d [ none ↦ err enoent | some r ↦ if r == rid then ok else err enoent ], none);
  next = λ d rid. elim d [ none ↦ (err enoent, 0) | some r ↦ (ok, r) ];
}

key_3-IsKey : IsKey (inode_key 3)
key_3-IsKey = ground arith

get_server_lock-GetsNext_example :
    GetsNext Exclusive rb rb-IsRbOps locks locks-IsTable
      (inode_key 3)
      key_3-IsKey
      (get_server_lock rb locks (inode_key 3) none true)
get_server_lock-GetsNext_example =
    get_server_lock-GetsNext Exclusive rb rb-IsRbOps locks locks-IsTable (inode_key 3) key_3-IsKey

server_request-Updates_example :
    Updates locks
      (inode_key 5)
      (server_request rb delivers true true server 3 30 (inode_key 5) 0 2).1.locks
server_request-Updates_example =
    server_request-Updates rb rb-IsRbOps delivers server (inode_key 5) (ground arith) locks-IsTable
      true true 3 30 0 2 (omega arith)

server_response-Updates_example :
    Updates locks (inode_key 7) (server_response rb delivers server 1 (inode_key 7) 2 1).1.locks
unfolding find find_entry invalidation_mode
server_response-Updates_example =
    server_response-Updates rb rb-IsRbOps delivers server (inode_key 7) (ground arith) locks-IsTable
      1 2 1 (λ s c f e. (1, ground (arith, f, e)))

-- client 1 leaves, so its entry for the first lock, and the lock, are freed, and client 2 has the other
farewell_grants :
    elim (server_farewell rb delivers records 3 server (some 1) 1) [
      | none ↦ []
      | some (r, sv, d) ↦ in_order sv.locks
    ]
    ≡ record asked {
      lists = record { granted = client 2 20 1 ∷ []; requested = []; invalidated = [] };
    }
      ∷ []
unfolding server_farewell each_lock get_server_lock get_walk leave_lock free_entries has_entry
    process_lock put_server_lock process_waiting_requests process_requests invalidate_grants
    grant_request client_entries_compatible write drop_key key_compare key_inc key_set_zeros
    spbm_empty scoutfs_cmp del_entry old_mode is_write_mode
farewell_grants = refl

-- there is memory for the first lock, and for no other
abbrev first_only : ℕ → Bool
first_only i = i == 0
