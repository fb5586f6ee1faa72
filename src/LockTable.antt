-- ===== src/LockTable.antt =====
-- lock_server.c: the server's tree of locks, and the operations that find their lock in it, make it
-- or free it, and walk all locks. One lock is in LockServer.
pub mod Invariant
pub mod Put
pub mod Granted
pub mod InTurn
pub mod Walk
pub mod Get
pub mod Each
pub mod Visits
pub mod Farewell
pub mod Resumed
pub mod Recovered
pub mod Requests
mod Tests
pub mod Alloc
pub mod Recovery
use scoutfs_kmod_dev.Base.{
  ℕ, zero, suc, ◌+◌, ◌-◌, ◌==◌, if◌then◌else◌, Bool, true, false, not, ◌&&◌, ◌||◌, Option, none,
  some, List, [], ◌∷◌, ◌++◌, Ret, ok, err, einval, enomem, enoent, eexist, Ordering,
}
use mathlib.Core.List.{map}
use scoutfs_kmod_dev.RbTree.{Tree, leaf, node, RbOps, write}
use scoutfs_kmod_dev.Key.{Key, key_compare, key_inc, key_set_zeros}
use scoutfs_kmod_dev.Key.Order.{rank}
use scoutfs_kmod_dev.Spbm.{Bitmap, Spbm, SpbmNode, spbm_clear, spbm_empty, spbm_test}
use scoutfs_kmod_dev.LockServer.{
  lock_null, LockNode, ClientEntry, Message, find_entry, del_entry, invalid_mode, is_empty,
  process_waiting_requests,
}

-- struct server_lock_node with its place in the tree
pub record ServerLock : Type 0 where
  pub refcount : ℕ
  pub key : Key
  pub lists : LockNode

abbrev pub lock_rank : ServerLock → ℕ
lock_rank s = rank s.key

-- struct lock_server_info, with the messages that were sent, each with its lock's key
pub record Server (B : Type 0) : Type 0 where
  pub locks : Tree ServerLock
  pub recovery_pending : Spbm B
  pub sent : List (Key × Message)
  pub write_version : ℕ

abbrev pub new_lock : Key → ServerLock
new_lock key = record {
  refcount = 0;
  key = key;
  lists = record { granted = []; requested = []; invalidated = [] };
}

-- The walk of get_server_lock: the lock of the key, and the last greater lock that it came by
-- where the caller asks for the next one.
unfoldable pub get_walk :
    Bool → Tree ServerLock → Key → Option ServerLock → Option ServerLock × Option ServerLock
get_walk or_next leaf key next = (none, next)
get_walk or_next (node l x r) key next =
    let left = get_walk or_next l key (if or_next then some x else next) in
    let right = get_walk or_next r key next in
    elim (key_compare key x.key) [
      | Ordering.lt ↦ left
      | Ordering.gt ↦ right
      | Ordering.eq ↦ (some x, next)
    ]

-- the new lock below the last node of that walk
unfoldable pub link_lock : Tree ServerLock → ServerLock → Tree ServerLock
link_lock leaf ins = node leaf ins leaf
link_lock (node l x r) ins =
    let left = link_lock l ins in
    let right = link_lock r ins in
    elim (key_compare ins.key x.key) [
      | Ordering.lt ↦ node left x r
      | Ordering.gt ↦ node l x right
      | Ordering.eq ↦ node l x r
    ]

-- a change of a lock that the caller has a pointer to
abbrev pub set_lock : Tree ServerLock → ServerLock → Tree ServerLock
set_lock locks s =
    write lock_rank locks (lock_rank s)
      (λ (x : ServerLock). record x { refcount = s.refcount; lists = s.lists })

abbrev pub taken : ServerLock → ServerLock
taken s = record s { refcount = s.refcount + 1 }

-- a reference to the lock is taken
abbrev pub hold : Tree ServerLock → ServerLock → Tree ServerLock × Option ServerLock
hold locks s = (set_lock locks (taken s), some (taken s))

-- the lists once the entry that was asked to give up its mode is freed or granted what is left
abbrev pub answered_lists : ClientEntry → ℕ → LockNode → LockNode
answered_lists clent new n = record n {
  granted = if new == lock_null then n.granted else n.granted ++ record clent { mode = new } ∷ [];
  invalidated = del_entry n.invalidated clent.rid;
}

-- a list without the entries of a client, which are freed
unfoldable pub free_entries : ℕ → List ClientEntry → List ClientEntry
free_entries rid [] = []
free_entries rid (c ∷ cs) =
    let rest = free_entries rid cs in if c.rid == rid then rest else c ∷ rest

abbrev pub without_client : ℕ → LockNode → LockNode
without_client rid n = record {
  granted = free_entries rid n.granted;
  requested = free_entries rid n.requested;
  invalidated = free_entries rid n.invalidated;
}

-- whether some entry was freed
unfoldable pub has_entry : ℕ → List ClientEntry → Bool
has_entry rid [] = false
has_entry rid (c ∷ cs) = c.rid == rid || has_entry rid cs

abbrev pub has_client : ℕ → LockNode → Bool
has_client rid n =
    has_entry rid n.granted || has_entry rid n.requested || has_entry rid n.invalidated

abbrev pub is_unused : ServerLock → Bool
is_unused s =
    s.refcount == 0
    && is_empty s.lists.granted
    && is_empty s.lists.requested
    && is_empty s.lists.invalidated

module _ (rb : RbOps ServerLock) where
  unfoldable pub get_server_lock :
      Tree ServerLock → Key → Option ServerLock → Bool → Tree ServerLock × Option ServerLock
  get_server_lock locks key ins or_next =
      let (ret, next) = get_walk or_next locks key none in
      elim ret [
        | some s ↦ hold locks s
        | none ↦ elim ins [
          | some s ↦ hold (rb.insert_color (link_lock locks s)) s
          | none ↦
              if or_next
              then elim next [ some s ↦ hold locks s | none ↦ (locks, none) ]
              else (locks, none)
        ]
      ]

  -- `room` where kzalloc succeeds
  unfoldable pub alloc_server_lock :
      Bool → Tree ServerLock → Key → Tree ServerLock × Option ServerLock
  alloc_server_lock room locks key =
      let (locks', found) = get_server_lock locks key none false in
      elim found [
        | some s ↦ (locks', some s)
        | none ↦
            if room then get_server_lock locks' key (some (new_lock key)) false else (locks', none)
      ]

  -- The lock as its holder leaves it; it is freed where nobody uses it.
  unfoldable pub put_server_lock : Tree ServerLock → ServerLock → Tree ServerLock
  put_server_lock locks s =
      let s' = record s { refcount = s.refcount - 1 } in
      let locks' = set_lock locks s' in if is_unused s' then rb.erase locks' s' else locks'

module _ {B : Type 0} (rb : RbOps ServerLock) where
  -- The walk over all locks from a key on, each of which `visit` puts: `none` where `fuel` locks
  -- were not all. `visit` hands back an error to stop with.
  unfoldable pub each_lock :
      ℕ → (Server B → ServerLock → Ret × Server B) → Key → Server B → Option (Ret × Server B)
  each_lock zero visit key sv = none
  each_lock (suc fuel) visit key sv =
      let (locks, found) = get_server_lock rb sv.locks key none true in
      elim found [
        | none ↦ some (ok, record sv { locks = locks })
        | some s ↦
            let (r, sv') = visit (record sv { locks = locks }) s in
            let rest = each_lock fuel visit (key_inc s.key) sv' in
            elim r [ ok ↦ rest | err e ↦ some (err e, sv') ]
      ]

module _ {B : Type 0} (rb : RbOps ServerLock)
    (net : List (Key × Message) → Key → List Message → Message → Ret) where
  -- process_waiting_requests on a lock of the table, which it puts
  unfoldable pub process_lock : Server B → ServerLock → Ret × Server B
  process_lock sv s =
      let (r, w) =
        process_waiting_requests (net sv.sent s.key) (not (spbm_empty sv.recovery_pending))
          (record { node = s.lists; sent = []; write_version = sv.write_version }) in
      (
        r,
        record sv {
          locks = put_server_lock rb sv.locks (record s { lists = w.node });
          sent = sv.sent ++ map (λ m. (s.key, m)) w.sent;
          write_version = w.write_version;
        },
      )

  -- the entry's and the lock's kzalloc
  unfoldable pub server_request : Bool → Bool → Server B → ℕ → ℕ → Key → ℕ → ℕ → Ret × Server B
  server_request entry_room lock_room sv rid net_id key old new =
      if invalid_mode old || invalid_mode new
      then (err einval, sv)
      else if not entry_room
      then (err enomem, sv)
      else (let (locks, found) = alloc_server_lock rb lock_room sv.locks key in
          elim found [
            | none ↦ (err enomem, record sv { locks = locks })
            | some s ↦
                let clent : ClientEntry = record { rid = rid; net_id = net_id; mode = new } in
                let lists' = record (s.lists) { requested = s.lists.requested ++ clent ∷ [] } in
                process_lock (record sv { locks = locks }) (record s { lists = lists' })
          ])

  unfoldable pub server_response : Server B → ℕ → Key → ℕ → ℕ → Ret × Server B
  server_response sv rid key old new =
      if invalid_mode old || invalid_mode new
      then (err einval, sv)
      else (let (locks, found) = get_server_lock rb sv.locks key none false in
          elim found [
            | none ↦ (err einval, record sv { locks = locks })
            | some s ↦ elim (find_entry s.lists.invalidated rid) [
              | none ↦ (err einval, record sv { locks = put_server_lock rb locks s })
              | some clent ↦
                  process_lock (record sv { locks = locks })
                    (record s { lists = answered_lists clent new s.lists })
            ]
          ])

  -- finished_recovery on one lock
  unfoldable pub resume_lock : Server B → ServerLock → Ret × Server B
  resume_lock sv s =
      if not (is_empty s.lists.requested)
      then process_lock sv s
      else (ok, record sv { locks = put_server_lock rb sv.locks s })

  -- scoutfs_lock_server_farewell on one lock
  unfoldable pub leave_lock : ℕ → Server B → ServerLock → Ret × Server B
  leave_lock rid sv s =
      let left = record s { lists = without_client rid s.lists } in
      if has_client rid s.lists
      then process_lock sv left
      else (ok, record sv { locks = put_server_lock rb sv.locks s })
