-- ===== src/LockTable/Granted.antt =====
-- The recovered locks of a client in turn: each is granted to it.
use scoutfs_kmod_dev.Base.{
  ℕ, ◌+◌, ◌^◌, Option, none, some, sym, ◌≡◌, ◌≢◌, ◌⊎◌, ◌==◌, inl, inr, not, List, [], ◌∷◌, ◌++◌,
  arith, refl, ◌∙◌, subst, Ret, ok, err, enomem, eexist, ◌<◌, Bool, Errno, false, true, ap,
  Bool-cases,
}
use scoutfs_kmod_dev.Base.Rules.{if_rule, option_rule}
use scoutfs_kmod_dev.RbTree.{Tree, RbOps, IsRbOps, find}
use scoutfs_kmod_dev.Key.{Key}
use scoutfs_kmod_dev.Key.Order.{IsKey, rank}
use scoutfs_kmod_dev.LockServer.{LockNode, ClientEntry, find_entry, is_empty}
use scoutfs_kmod_dev.LockTable.{ServerLock, Server, lock_rank, alloc_server_lock, put_server_lock}
use scoutfs_kmod_dev.LockTable.Recovery.{recover_lock}
use scoutfs_kmod_dev.LockTable.Invariant.{IsTable}
use scoutfs_kmod_dev.LockTable.Get.{Held}
use scoutfs_kmod_dev.LockTable.Alloc.{Allocs, alloc_server_lock-Allocs}
use scoutfs_kmod_dev.LockTable.Put.{put_server_lock-Puts, put_server_lock-stays}

-- What clients report of a lock's holders is not checked against other clients.
abbrev pub Any : LockNode → Type 0
Any n = Unit {0}

-- The key of a recovered lock is below the greatest.
abbrev pub Below : Key × ℕ → Type 0
Below lock = IsKey lock.0 × (rank lock.0 + 1 < 2 ^ 216)

-- The table has the lock, and the client's first entry of those who hold it has the mode.
abbrev pub Granted : ℕ → Tree ServerLock → Key × ℕ → Type 0
Granted rid t lock =
    (s : ServerLock) × (c : ClientEntry) × (find lock_rank t (rank lock.0) ≡ some s)
    × (find_entry s.lists.granted rid ≡ some c)
    × (c.mode ≡ lock.1)

-- Recovering one lock of the client makes the table `t'` of `t`.
pub record Recovers (t : Tree ServerLock) (rid : ℕ) (lock : Key × ℕ) (r : Ret)
    (t' : Tree ServerLock) : Type 0 where
  pub table : IsTable Any t'
  pub others : (j : ℕ) → j ≢ rank lock.0 → find lock_rank t' j ≡ find lock_rank t j
  pub grants : r ≡ ok → Granted rid t' lock
  pub keeps : (l : Key × ℕ) → Granted rid t l → Granted rid t' l
  pub fails : (e : Errno) → r ≡ err e → (e ≡ enomem) ⊎ (e ≡ eexist)

find_entry-last :
    (cs : List ClientEntry) (c : ClientEntry)
    → find_entry cs c.rid ≡ none
    → find_entry (cs ++ c ∷ []) c.rid ≡ some c
unfolding find_entry
find_entry-last [] c h = ground arith
find_entry-last (d ∷ cs) c h =
    let other : (d.rid == c.rid) ≡ false = ground (arith, h) in
    rw other (find_entry-last cs c (ground (arith, h, other)))

append-used : (cs : List ClientEntry) (c : ClientEntry) → is_empty (cs ++ c ∷ []) ≡ false
append-used [] c = refl
append-used (d ∷ cs) c = refl

found-used :
    (cs : List ClientEntry) (rid : ℕ) (c : ClientEntry)
    → find_entry cs rid ≡ some c
    → is_empty cs ≡ false
unfolding find_entry
found-used [] rid c h = cc
found-used (d ∷ cs) rid c h = refl

module _ {B : Type 0} (rb : RbOps ServerLock) (laws : IsRbOps lock_rank rb) (sv : Server B)
    (h : IsTable Any sv.locks) (rid : ℕ) (key : Key) (mode : ℕ) (below : Below (key, mode)) where
  abbrev After : Ret × Server B → Type 0
  After p = Recovers sv.locks rid (key, mode) p.0 p.1.locks

  abbrev clent : ClientEntry
  clent = record { rid = rid; net_id = 0; mode = mode }

  unchanged : (e : Errno) → (e ≡ enomem) ⊎ (e ≡ eexist) → After (err e, sv)
  unchanged e why = record {
    table = h;
    others = λ j n. refl;
    grants = λ q. cc;
    keeps = λ l g. g;
    fails = λ r q. ground (arith, why, q);
  }

  module _ (t1 : Tree ServerLock) (s : ServerLock) (same : lock_rank s ≡ rank key)
      (held : Held Any sv.locks s t1)
      (old : (x : ServerLock)
        → find lock_rank sv.locks (rank key) ≡ some x
        → s.lists ≡ x.lists) where
    there :
        (c : ClientEntry)
        → find_entry s.lists.granted rid ≡ some c
        → After (err eexist, record sv { locks = put_server_lock rb t1 s })
    there c0 has =
        let p = put_server_lock-Puts rb laws Any t1 s held.holds s.lists tt in
        let stays =
          put_server_lock-stays rb laws Any t1 s held.holds s.lists tt
            (ground (arith, found-used s.lists.granted rid c0 has)) in
        let others : (j : ℕ)
            → j ≢ rank key
            → find lock_rank (put_server_lock rb t1 s) j ≡ find lock_rank sv.locks j =
          λ j n.
            let n' : j ≢ lock_rank s = omega (arith, n, same) in p.others j n' ∙ held.others j n' in
        record {
          table = p.table;
          others = others;
          grants = λ q. cc;
          keeps = λ l (x, c, f, e, m). elim (Bool-cases (rank l.0 == rank key)) [
            | inl t ↦
                let at : rank l.0 ≡ rank key = ground (arith, t) in
                let one = old x (subst (λ j. find lock_rank sv.locks j ≡ some x) at f) in
                (
                  _,
                  c,
                  ap (find lock_rank (put_server_lock rb t1 s)) (at ∙ sym same) ∙ stays,
                  subst (λ (n : LockNode). find_entry n.granted rid ≡ some c) (sym one) e,
                  m,
                )
            | inr t ↦ (x, c, others (rank l.0) (ground (arith, t)) ∙ f, e, m)
          ];
          fails = λ r q. ground (arith, q);
        }

    abbrev lists' : LockNode
    lists' = record (s.lists) { granted = s.lists.granted ++ clent ∷ [] }

    not_both :
        find_entry s.lists.granted rid ≡ none
        → (x : ServerLock) (c : ClientEntry) (k : Key) → (rank k == rank key) ≡ true
        → find lock_rank sv.locks (rank k) ≡ some x
        → find_entry x.lists.granted rid ≡ some c
        → ⊥
    not_both absent x c k t f e =
        let at : rank k ≡ rank key = ground (arith, t) in
        let one = old x (subst (λ j. find lock_rank sv.locks j ≡ some x) at f) in
        let gone : find_entry x.lists.granted rid ≡ none =
          subst (λ (l : LockNode). find_entry l.granted rid ≡ none) one absent in
        ground (arith, gone, e)

    granted :
        find_entry s.lists.granted rid ≡ none
        → After (ok, record sv { locks = put_server_lock rb t1 (record s { lists = lists' }) })
    granted absent =
        let p = put_server_lock-Puts rb laws Any t1 s held.holds lists' tt in
        let stays =
          put_server_lock-stays rb laws Any t1 s held.holds lists' tt
            (ground (arith, append-used s.lists.granted clent)) in
        let others : (j : ℕ)
            → j ≢ rank key
            → find lock_rank (put_server_lock rb t1 (record s { lists = lists' })) j
              ≡ find lock_rank sv.locks j =
          λ j n.
            let n' : j ≢ lock_rank s = omega (arith, n, same) in p.others j n' ∙ held.others j n' in
        record {
          table = p.table;
          others = others;
          grants = λ q. (
            _,
            clent,
            ap (find lock_rank _) (sym same) ∙ stays,
            find_entry-last s.lists.granted clent absent,
            refl,
          );
          keeps = λ l (x, c, f, e, m). elim (Bool-cases (rank l.0 == rank key)) [
            | inl t ↦ absurd (not_both absent x c l.0 t f e)
            | inr t ↦ (x, c, others (rank l.0) (ground (arith, t)) ∙ f, e, m)
          ];
          fails = λ r q. cc;
        }

  pub recover_lock-Recovers :
      (entry_room lock_room : Bool) → After (recover_lock rb entry_room lock_room sv rid key mode)
  unfolding recover_lock
  recover_lock-Recovers entry_room lock_room =
      if_rule After (not entry_room) _ _ (λ _. unchanged enomem (inl refl))
        (λ _.
          cases (alloc_server_lock rb lock_room sv.locks key)
            (alloc_server_lock-Allocs Any rb laws sv.locks h key below.0 below.1 tt lock_room))
    where
      after : Tree ServerLock × Option ServerLock → Ret × Server B
      after p = elim p.1 [
        | none ↦ (err enomem, record sv { locks = p.0 })
        | some s ↦ elim (find_entry s.lists.granted rid) [
          | some _ ↦ (err eexist, record sv { locks = put_server_lock rb p.0 s })
          | none ↦ (
            ok,
            record sv {
              locks = put_server_lock rb p.0 (record s {
                lists = record (s.lists) { granted = s.lists.granted ++ clent ∷ [] };
              });
            },
          )
        ]
      ]

      cases :
          (p : Tree ServerLock × Option ServerLock)
          → Allocs Any rb laws sv.locks h key below.0 below.1 tt lock_room p
          → After (after p)
      cases p (inl (e, _)) = subst (λ q. After (after q)) (sym e) (unchanged enomem (inl refl))
      cases (t', none) (inr (s, e, same, held, old)) = cc
      cases (t', some x) (inr (s, e, same, held, old)) =
          let is_s : s ≡ x = ground (arith, e) in
          subst (λ y. After (after (t', some y))) is_s
            (option_rule After (find_entry s.lists.granted rid) _ _
              (λ absent. granted t' s same held old absent)
              (λ c has. there t' s same held old c has))
