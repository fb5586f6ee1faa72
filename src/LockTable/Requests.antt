-- ===== src/LockTable/Requests.antt =====
-- scoutfs_lock_server_request and scoutfs_lock_server_response on a table of locks.
use scoutfs_kmod_dev.Base.{
  ℕ, ◌+◌, ◌^◌, Option, none, some, sym, ◌≡◌, ◌≢◌, inl, inr, not, ◌||◌, false, List, [], ◌∷◌, ◌++◌,
  arith, refl, ◌∙◌, subst, Ret, err, einval, enomem, ◌<◌, Bool,
}
use scoutfs_kmod_dev.Base.Rules.{if_rule, option_rule}
use scoutfs_kmod_dev.RbTree.{Tree, RbOps, IsRbOps, find}
use scoutfs_kmod_dev.Key.{Key}
use scoutfs_kmod_dev.Key.Order.{IsKey, rank}
use scoutfs_kmod_dev.LockServer.{
  LockNode, Message, ClientEntry, invalid_mode, invalidation_mode, find_entry,
}
use scoutfs_kmod_dev.LockServer.Entries.{Exclusive, answered-Exclusive}
use scoutfs_kmod_dev.LockServer.Exclusion.{process_waiting_requests-Exclusive}
use scoutfs_kmod_dev.LockTable.{
  ServerLock, Server, lock_rank, get_server_lock, alloc_server_lock, put_server_lock, process_lock,
  server_request, server_response, answered_lists,
}
use scoutfs_kmod_dev.LockTable.Invariant.{IsTable}
use scoutfs_kmod_dev.LockTable.Get.{Held, Gets, get_server_lock-Gets}
use scoutfs_kmod_dev.LockTable.Alloc.{Allocs, alloc_server_lock-Allocs}
use scoutfs_kmod_dev.LockTable.Each.{Visited}
use scoutfs_kmod_dev.LockTable.Visits.{put-Visited, process_lock-Visited}

-- Every lock is held exclusively and used, and every lock but that of the key is as it was.
abbrev pub Updates : Tree ServerLock → Key → Tree ServerLock → Type 0
Updates t key t' =
    IsTable Exclusive t' × ((j : ℕ) → j ≢ rank key → find lock_rank t' j ≡ find lock_rank t j)

abbrev Any : LockNode → Type 0
Any n = Unit {0}

Visited-Updates :
    (t t1 : Tree ServerLock) (key : Key) (s : ServerLock) (r : Ret) (t' : Tree ServerLock)
    → Held Exclusive t s t1
    → lock_rank s ≡ rank key
    → Visited Exclusive Any t1 s r t'
    → Updates t key t'
Visited-Updates t t1 key s r t' held same v = (
  v.table,
  λ j n. let n' : j ≢ lock_rank s = omega (arith, n, same) in v.others j n' ∙ held.others j n',
)

module _ {B : Type 0} (rb : RbOps ServerLock) (laws : IsRbOps lock_rank rb)
    (net : List (Key × Message) → Key → List Message → Message → Ret) (sv : Server B) (key : Key)
    (fits : IsKey key) (h : IsTable Exclusive sv.locks) where
  abbrev Kept : Ret × Server B → Type 0
  Kept p = Updates sv.locks key p.1.locks

  unchanged : Updates sv.locks key sv.locks
  unchanged = (h, λ j n. refl)

  -- The held lock of the key is processed, with lists that are exclusive.
  process-Updates :
      (t1 : Tree ServerLock) (s : ServerLock) (lists' : LockNode)
      → Held Exclusive sv.locks s t1
      → lock_rank s ≡ rank key
      → Exclusive lists'
      → Kept (process_lock rb net (record sv { locks = t1 }) (record s { lists = lists' }))
  process-Updates t1 s lists' held same good = Visited-Updates sv.locks t1 key s _ _ held same (
      process_lock-Visited rb laws Exclusive Any net (record sv { locks = t1 }) s lists' held.holds
        (process_waiting_requests-Exclusive _ _ _ good) (λ _. tt))

  -- Where the locks of the table stand in the order of their keys, which fit their types and are
  -- below all ones, and each lock is unreferenced, held exclusively and has some client's entry, a
  -- request for a key that is below all ones, with or without room for its entry and its lock and
  -- whatever the network does, leaves a table of which the same is true, and changes no lock but
  -- that of its key; so do its errors.
  pub server_request-Updates :
      (entry_room lock_room : Bool) (rid net_id old new : ℕ)
      → rank key + 1 < 2 ^ 216
      → Updates sv.locks key
          (server_request rb net entry_room lock_room sv rid net_id key old new).1.locks
  unfolding server_request
  server_request-Updates entry_room lock_room rid net_id old new last =
      if_rule Kept (invalid_mode old || invalid_mode new) _ _ (λ _. unchanged)
        (λ _.
          if_rule Kept (not entry_room) _ _ (λ _. unchanged)
            (λ _.
              cases (alloc_server_lock rb lock_room sv.locks key)
                (alloc_server_lock-Allocs Exclusive rb laws sv.locks h key fits last tt lock_room)))
    where
      clent : ClientEntry
      clent = record { rid = rid; net_id = net_id; mode = new }

      after : Tree ServerLock × Option ServerLock → Ret × Server B
      after p = elim p.1 [
        | none ↦ (err enomem, record sv { locks = p.0 })
        | some s ↦
            process_lock rb net (record sv { locks = p.0 })
              (record s {
                lists = record (s.lists) { requested = s.lists.requested ++ clent ∷ [] };
              })
      ]

      cases :
          (p : Tree ServerLock × Option ServerLock)
          → Allocs Exclusive rb laws sv.locks h key fits last tt lock_room p
          → Kept (after p)
      cases p (inl (e, _)) = subst (λ q. Kept (after q)) (sym e) unchanged
      cases (t', none) (inr (s, e, same, held, _)) = cc
      cases (t', some x) (inr (s, e, same, held, _)) =
          let is_s : s ≡ x = ground (arith, e) in
          subst (λ y. Kept (after (t', some y))) is_s (process-Updates t' s _ held same held.lists)

  -- Where the locks of the table stand in the order of their keys, which fit their types and are
  -- below all ones, and each lock is unreferenced, held exclusively and has some client's entry, a
  -- client's answer, whatever the network does, leaves a table of which the same is true, and
  -- changes no lock but that of its key, if the mode that the client keeps is one that
  -- invalidation_mode asks of its entry for some request; so do its errors.
  pub server_response-Updates :
      (rid old new : ℕ)
      → ((s : ServerLock) (c : ClientEntry)
          → find lock_rank sv.locks (rank key) ≡ some s
          → find_entry s.lists.invalidated rid ≡ some c
          → (requested : ℕ) × (new ≡ invalidation_mode c.mode requested))
      → Updates sv.locks key (server_response rb net sv rid key old new).1.locks
  unfolding server_response
  server_response-Updates rid old new asked_for =
      if_rule Kept (invalid_mode old || invalid_mode new) _ _ (λ _. unchanged)
        (λ _.
          cases (get_server_lock rb sv.locks key none false)
            (get_server_lock-Gets Exclusive rb laws sv.locks h key fits))
    where
      answer : Tree ServerLock → ServerLock → Ret × Server B
      answer t s = elim (find_entry s.lists.invalidated rid) [
        | none ↦ (err einval, record sv { locks = put_server_lock rb t s })
        | some clent ↦
            process_lock rb net (record sv { locks = t })
              (record s { lists = answered_lists clent new s.lists })
      ]

      after : Tree ServerLock × Option ServerLock → Ret × Server B
      after p = elim p.1 [ none ↦ (err einval, record sv { locks = p.0 }) | some s ↦ answer p.0 s ]

      answered :
          (t : Tree ServerLock) (s : ServerLock)
          → Held Exclusive sv.locks s t
          → lock_rank s ≡ rank key
          → ((c : ClientEntry)
              → find_entry s.lists.invalidated rid ≡ some c
              → (requested : ℕ) × (new ≡ invalidation_mode c.mode requested))
          → Kept (answer t s)
      answered t s held same asked =
          option_rule Kept (find_entry s.lists.invalidated rid) _
            (λ clent.
              process_lock rb net (record sv { locks = t })
                (record s { lists = answered_lists clent new s.lists }))
            (λ _. Visited-Updates sv.locks t key s (err einval) _ held same (
              put-Visited rb laws Exclusive Any t s s.lists (err einval) held.holds held.lists
                (λ _. tt)))
            (λ clent found. process-Updates t s (answered_lists clent new s.lists) held same (
              answered-Exclusive clent new rid
                (record { node = s.lists; sent = []; write_version = 0 }) found held.lists
                (asked clent found)))

      cases :
          (p : Tree ServerLock × Option ServerLock)
          → Gets Exclusive rb laws sv.locks h key fits p
          → Kept (after p)
      cases p (inl (e, _)) = subst (λ q. Kept (after q)) (sym e) unchanged
      cases (t', none) (inr (s, e, _, _, _)) = cc
      cases (t', some x) (inr (s, e, same, held, (y, found, lists))) =
          let is_s : s ≡ x = ground (arith, e) in
          subst (λ z. Kept (after (t', some z))) is_s
            (answered t' s held same (λ c f.
              asked_for y c found
                (subst (λ (n : LockNode). find_entry n.invalidated rid ≡ some c) lists f)))
