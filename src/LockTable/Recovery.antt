-- ===== src/LockTable/Recovery.antt =====
-- lock_server.c: clients that come, recover their locks, and leave.
use scoutfs_kmod_dev.Base.{
  ℕ, if◌then◌else◌, Bool, not, Option, none, some, List, [], ◌∷◌, ◌++◌, Ret, ok, err, einval,
  enomem, enoent, eexist, ◌+◌,
}
use scoutfs_kmod_dev.RbTree.{RbOps}
use scoutfs_kmod_dev.Key.{Key, key_inc, key_set_zeros}
use scoutfs_kmod_dev.Spbm.{Bitmap, SpbmNode, spbm_clear, spbm_empty, spbm_test}
use scoutfs_kmod_dev.LockServer.{ClientEntry, Message, find_entry, is_empty}
use scoutfs_kmod_dev.LockTable.{
  ServerLock, Server, alloc_server_lock, put_server_lock, each_lock, resume_lock, leave_lock,
}

-- What lock_clients, a btree of client records, answers, and what the transport does: the calls of
-- btree.c, server.c and the delayed work that the operations make.
pub record Records (D : Type 0) : Type 0 where
  pub lookup : D → ℕ → Ret
  pub insert : D → ℕ → Ret × D
  pub delete : D → ℕ → Ret × D
  -- the first record from an id on, with its id
  pub next : D → ℕ → Ret × ℕ

module _ {D : Type 0} (records : Records D) (recover_request : ℕ → Key → Ret) where
  unfoldable pub server_greeting : D → ℕ → Bool → Ret × D
  server_greeting d rid should_exist =
      let (r, d') = if should_exist then (records.lookup d rid, d) else records.insert d rid in
      elim r [
        | err e ↦ (err e, d')
        | ok ↦ if should_exist then (recover_request rid key_set_zeros, d') else (ok, d')
      ]

module _ {B : Type 0} (rb : RbOps ServerLock) where
  -- One recovered lock of the client: it holds the mode already.
  unfoldable pub recover_lock : Bool → Bool → Server B → ℕ → Key → ℕ → Ret × Server B
  recover_lock entry_room lock_room sv rid key mode =
      if not entry_room
      then (err enomem, sv)
      else (let (locks, found) = alloc_server_lock rb lock_room sv.locks key in
          elim found [
            | none ↦ (err enomem, record sv { locks = locks })
            | some s ↦ elim (find_entry s.lists.granted rid) [
              | some _ ↦ (err eexist, record sv { locks = put_server_lock rb locks s })
              | none ↦
                  let clent : ClientEntry = record { rid = rid; net_id = 0; mode = mode } in
                  let lists' = record (s.lists) { granted = s.lists.granted ++ clent ∷ [] } in
                  (ok, record sv { locks = put_server_lock rb locks (record s { lists = lists' }) })
            ]
          ])

  -- The recovered locks in turn, and the key of the last one. Whether there is memory for the entry
  -- and for the lock is asked anew for each of them, by its index.
  unfoldable pub recover_locks :
      (ℕ → Bool) → (ℕ → Bool) → ℕ → Server B → ℕ → Key → List (Key × ℕ) → Ret × Key × Server B
  recover_locks entry_room lock_room i sv rid last [] = (ok, last, sv)
  recover_locks entry_room lock_room i sv rid last ((key, mode) ∷ locks) =
      let (r, sv') = recover_lock (entry_room i) (lock_room i) sv rid key mode in
      let rest = recover_locks entry_room lock_room (i + 1) sv' rid key locks in
      elim r [ err e ↦ (err e, last, sv') | ok ↦ rest ]

module _ {B : Type 0} (bitmap : Bitmap B) (spbm_rb : RbOps (SpbmNode B)) (rb : RbOps ServerLock)
    (net : List (Key × Message) → Key → List Message → Message → Ret) where
  unfoldable pub finished_recovery : ℕ → Server B → ℕ → Option (Ret × Server B)
  finished_recovery fuel sv rid =
      let pending = spbm_clear bitmap spbm_rb sv.recovery_pending rid in
      let sv' = record sv { recovery_pending = pending } in
      let walk = each_lock rb fuel (resume_lock rb net) key_set_zeros sv' in
      if not (spbm_empty pending) then some (ok, sv') else walk

  unfoldable pub recover_response :
      (ℕ → Key → Ret)
      → ℕ
      → (ℕ → Bool)
      → (ℕ → Bool)
      → Server B
      → ℕ
      → List (Key × ℕ)
      → Option (Ret × Server B)
  recover_response recover_request fuel entry_room lock_room sv rid locks =
      let finished = finished_recovery fuel sv rid in
      let (r, last, sv') = recover_locks rb entry_room lock_room 0 sv rid key_set_zeros locks in
      if not (spbm_test bitmap spbm_rb sv.recovery_pending rid)
      then some (err einval, sv)
      else if is_empty locks
      then finished
      else elim r [
        | err e ↦ some (err e, sv')
        | ok ↦ some (recover_request rid (key_inc last), sv')
      ]

module _ {B D : Type 0} (rb : RbOps ServerLock)
    (net : List (Key × Message) → Key → List Message → Message → Ret) (records : Records D) where
  -- A client leaves; a hard error makes the server abort.
  unfoldable pub server_farewell : ℕ → Server B → D → ℕ → Option (Ret × Server B × D)
  server_farewell fuel sv d rid =
      let (r, d') = records.delete d rid in
      let walk = each_lock rb fuel (leave_lock rb net rid) key_set_zeros sv in
      elim r [
        | err enoent ↦ some (ok, sv, d')
        | err e ↦ some (err e, sv, d')
        | ok ↦ elim walk [ none ↦ none | some (r', sv') ↦ some (r', sv', d') ]
      ]
