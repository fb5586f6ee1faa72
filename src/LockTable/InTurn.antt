-- ===== src/LockTable/InTurn.antt =====
-- The recovered locks of a client in turn, up to the one that fails.
use scoutfs_kmod_dev.Base.{
  ℕ, ◌+◌, ◌≡◌, ◌≢◌, ◌⊎◌, List, [], ◌∷◌, ◌++◌, refl, ◌∙◌, Ret, ok, err, enomem, eexist, Bool, Errno,
  ap,
}
use scoutfs_kmod_dev.Base.Lists.{All}
use scoutfs_kmod_dev.Base.Rules.{ret_rule}
use scoutfs_kmod_dev.RbTree.{Tree, RbOps, IsRbOps, find}
use scoutfs_kmod_dev.Key.{Key}
use scoutfs_kmod_dev.Key.Order.{rank}
use scoutfs_kmod_dev.LockTable.{ServerLock, Server, lock_rank}
use scoutfs_kmod_dev.LockTable.Recovery.{recover_lock, recover_locks}
use scoutfs_kmod_dev.LockTable.Invariant.{IsTable}
use scoutfs_kmod_dev.LockTable.Granted.{Any, Below, Granted, recover_lock-Recovers}

-- the key of the last lock
abbrev last_key : Key → List (Key × ℕ) → Key
last_key last [] = last
last_key last (lock ∷ locks) = last_key lock.0 locks

-- Recovering the client's locks in turn makes the table `t'` of `t` and ends at the key `k`: the
-- first ones are granted to the client, all of them where there is no error.
pub record RecoversAll (t : Tree ServerLock) (rid : ℕ) (last : Key) (locks : List (Key × ℕ))
    (r : Ret) (k : Key) (t' : Tree ServerLock) : Type 0 where
  pub table : IsTable Any t'
  pub others :
      (j : ℕ)
      → All (λ (lock : Key × ℕ). j ≢ rank lock.0) locks
      → find lock_rank t' j ≡ find lock_rank t j
  pub keeps : (l : Key × ℕ) → Granted rid t l → Granted rid t' l
  pub fails : (e : Errno) → r ≡ err e → (e ≡ enomem) ⊎ (e ≡ eexist)
  pub ends : r ≡ ok → k ≡ last_key last locks
  pub grants :
      (granted : List (Key × ℕ)) × (rest : List (Key × ℕ)) × (locks ≡ granted ++ rest)
      × All (Granted rid t') granted
      × (r ≡ ok → rest ≡ [])
      × ((e : Errno) → r ≡ err e → rest ≢ [])

module _ {B : Type 0} (rb : RbOps ServerLock) (laws : IsRbOps lock_rank rb)
    (entry_room lock_room : ℕ → Bool) (rid : ℕ) where
  abbrev AllOf : Server B → Key → List (Key × ℕ) → Ret × Key × Server B → Type 0
  AllOf sv last locks q = RecoversAll sv.locks rid last locks q.0 q.1 q.2.locks

  pub recover_locks-RecoversAll :
      (i : ℕ) (sv : Server B) (last : Key) (locks : List (Key × ℕ))
      → IsTable Any sv.locks
      → All Below locks
      → AllOf sv last locks (recover_locks rb entry_room lock_room i sv rid last locks)
  unfolding recover_locks
  recover_locks-RecoversAll i sv last [] h b = record {
    table = h;
    others = λ j a. refl;
    keeps = λ l g. g;
    fails = λ e q. cc;
    ends = λ q. refl;
    grants = ([], [], refl, tt, (λ q. refl), λ e q. cc);
  }
  recover_locks-RecoversAll i sv last ((key, mode) ∷ locks) h b =
      let p = recover_lock rb (entry_room i) (lock_room i) sv rid key mode in
      let one = recover_lock-Recovers rb laws sv h rid key mode b.0 (entry_room i) (lock_room i) in
      let all = recover_locks-RecoversAll (i + 1) p.1 key locks one.table b.1 in
      let (granted, rest, whole, has, complete, left) = all.grants in
      ret_rule (AllOf sv last ((key, mode) ∷ locks)) p.0 (λ e. (err e, last, p.1))
        (recover_locks rb entry_room lock_room (i + 1) p.1 rid key locks)
        (λ e at. record {
          table = one.table;
          others = λ j a. one.others j a.0;
          keeps = one.keeps;
          fails = λ r q. one.fails r (at ∙ q);
          ends = λ q. cc;
          grants = ([], (key, mode) ∷ locks, refl, tt, (λ q. cc), λ r q. cc);
        })
        (λ at. record {
          table = all.table;
          others = λ j a. all.others j a.1 ∙ one.others j a.0;
          keeps = λ l g. all.keeps l (one.keeps l g);
          fails = all.fails;
          ends = all.ends;
          grants = (
            (key, mode) ∷ granted,
            rest,
            ap (λ ls. (key, mode) ∷ ls) whole,
            (all.keeps (key, mode) (one.grants at), has),
            complete,
            left,
          );
        })
