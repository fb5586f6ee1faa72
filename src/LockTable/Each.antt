-- ===== src/LockTable/Each.antt =====
-- The walk over all locks, from key to key.
use scoutfs_kmod_dev.Base.{
  ℕ, zero, suc, ◌+◌, ◌<◌, ◌≤◌, ◌≡◌, ◌≢◌, leb, if◌then◌else◌, true, Option, none, some, List, [],
  ◌∷◌, arith, refl, ap, sym, ◌∙◌, subst, inl, inr, Ret, ok, err, Bool-cases, ◌==◌,
}
use scoutfs_kmod_dev.RbTree.{Tree, RbOps, IsRbOps, in_order, find}
use scoutfs_kmod_dev.RbTree.Search.{lookup, find-lookup}
use scoutfs_kmod_dev.Key.{Key, key_inc, key_set_zeros}
use scoutfs_kmod_dev.Key.Order.{IsKey, rank}
use scoutfs_kmod_dev.Key.Succ.{rank-key_inc, key_inc-IsKey}
use scoutfs_kmod_dev.LockServer.{LockNode}
use scoutfs_kmod_dev.LockTable.{ServerLock, Server, lock_rank, get_server_lock, each_lock}
use scoutfs_kmod_dev.LockTable.Invariant.{IsTable}
use scoutfs_kmod_dev.LockTable.Get.{Held, GetsNext, get_server_lock-GetsNext}
use scoutfs_kmod_dev.Base.Rules.{ret_rule}
use scoutfs_kmod_dev.Base.Lists.{length}
use scoutfs_kmod_dev.Spbm.{Spbm}
use native.Mathlib.Decide.{dec_lt}

-- how many locks of a list a walk from `k` on still meets
locks_from : ℕ → List ServerLock → ℕ
locks_from k [] = 0
locks_from k (x ∷ xs) = (if leb k (lock_rank x) then 1 else 0) + locks_from k xs

locks_from-length : (k : ℕ) (xs : List ServerLock) → locks_from k xs ≤ length xs
unfolding locks_from
locks_from-length k [] = omega arith
locks_from-length k (x ∷ xs) = ground (arith, locks_from-length k xs)

locks_from_mono : (k m : ℕ) (xs : List ServerLock) → k ≤ m → locks_from m xs ≤ locks_from k xs
unfolding locks_from
locks_from_mono k m [] p = omega arith
locks_from_mono k m (x ∷ xs) p = ground (arith, locks_from_mono k m xs p, p)

locks_from-visited :
    (k m : ℕ) (xs : List ServerLock) (a : ServerLock)
    → k ≤ m
    → lookup lock_rank xs m ≡ some a
    → locks_from (m + 1) xs < locks_from k xs
unfolding locks_from lookup
locks_from-visited k m [] a p e = cc
locks_from-visited k m (x ∷ xs) a p e =
    let rest = locks_from-visited k m xs a p in
    let mono = locks_from_mono k (m + 1) xs (omega (arith, p)) in
    elim (Bool-cases (lock_rank x == m)) [
      | inl q ↦ ground (arith, mono, p, q)
      | inr q ↦ ground (arith, rest (ground (arith, e, q)), q, p)
    ]

-- What a visit of the lock `s` does to the table, which it comes to as `t`: `Q` holds of the
-- lock's lists where the visit is fine.
pub record Visited (P Q : LockNode → Type 0) (t : Tree ServerLock) (s : ServerLock) (r : Ret)
    (t' : Tree ServerLock) : Type 0 where
  pub table : IsTable P t'
  pub others : (j : ℕ) → j ≢ lock_rank s → find lock_rank t' j ≡ find lock_rank t j
  pub visited : (x : ServerLock) → r ≡ ok → find lock_rank t' (lock_rank s) ≡ some x → Q x.lists

module _ {B : Type 0} (rb : RbOps ServerLock) (laws : IsRbOps lock_rank rb)
    (P Q : LockNode → Type 0) (pending : Spbm B) (visit : Server B → ServerLock → Ret × Server B)
    (visit_law : (sv : Server B) (t : Tree ServerLock) (s : ServerLock)
      → Held P t s sv.locks
      → sv.recovery_pending ≡ pending
      → Visited P Q sv.locks s (visit sv s).0 (visit sv s).1.locks
        × ((visit sv s).1.recovery_pending ≡ pending)) where
  -- The walk comes to an end, and where no visit failed each lock that is left was visited.
  abbrev pub Ends : Option (Ret × Server B) → Type 0
  Ends o =
      (r : Ret) × (sv : Server B) × (o ≡ some (r, sv))
      × IsTable P sv.locks
      × (r ≡ ok → (j : ℕ) (x : ServerLock) → find lock_rank sv.locks j ≡ some x → Q x.lists)

  module _ (all : List ServerLock) where
    -- the locks below the key are visited, the others are of `all`
    abbrev Between : Key → Tree ServerLock → Type 0
    Between key t =
        ((j : ℕ) (x : ServerLock) → find lock_rank t j ≡ some x → j < rank key → Q x.lists)
        × ((j : ℕ) (x : ServerLock)
            → find lock_rank t j ≡ some x
            → rank key ≤ j
            → (a : ServerLock) × (lookup lock_rank all j ≡ some a))

    -- a walk on `fuel` from a key on ends
    abbrev Walks : ℕ → (Key → Server B → Option (Ret × Server B)) → Type 0
    Walks fuel walk =
        (key : Key) (sv : Server B)
        → IsKey key
        → IsTable P sv.locks
        → sv.recovery_pending ≡ pending
        → Between key sv.locks
        → locks_from (rank key) all < fuel
        → Ends (walk key sv)

    module _ (fuel : ℕ) (rest : Key → Server B → Option (Ret × Server B)) (walks : Walks fuel rest)
        (key : Key) (fits : IsKey key) (sv : Server B) (h : IsTable P sv.locks)
        (same : sv.recovery_pending ≡ pending) (b : Between key sv.locks)
        (enough : locks_from (rank key) all < suc fuel) where
      abbrev next : ServerLock → Ret × Server B → Option (Ret × Server B)
      next s q = elim q.0 [ err e ↦ some (err e, q.1) | ok ↦ rest (key_inc s.key) q.1 ]

      abbrev after : Tree ServerLock × Option ServerLock → Option (Ret × Server B)
      after p = elim p.1 [
        | none ↦ some (ok, record sv { locks = p.0 })
        | some s ↦ next s (visit (record sv { locks = p.0 }) s)
      ]

      module _ (t : Tree ServerLock) (s : ServerLock) (held : Held P sv.locks s t)
          (from : rank key ≤ lock_rank s)
          (least : (j : ℕ) (y : ServerLock)
            → find lock_rank sv.locks j ≡ some y
            → rank key ≤ j
            → lock_rank s ≤ j)
          (q : Ret × Server B) (v : Visited P Q t s q.0 q.1.locks)
          (same' : q.1.recovery_pending ≡ pending) where
        -- every other lock is as it was
        back :
            (j : ℕ) (x : ServerLock)
            → find lock_rank q.1.locks j ≡ some x
            → j ≢ lock_rank s
            → find lock_rank sv.locks j ≡ some x
        back j x f n = sym (held.others j n) ∙ (sym (v.others j n) ∙ f)

        before_next :
            q.0 ≡ ok
            → (j : ℕ) (x : ServerLock) → find lock_rank q.1.locks j ≡ some x
            → j < lock_rank s + 1
            → Q x.lists
        before_next m j x f p = elim (dec_lt j (lock_rank s)) [
          | yes c ↦
              let f' = back j x f (omega (arith, c)) in
              elim (dec_lt j (rank key)) [
                | yes d ↦ b.0 j x f' d
                | no d ↦ absurd (omega (arith, c, least j x f' (omega (arith, d))))
              ]
          | no c ↦
              let at : j ≡ lock_rank s = omega (arith, c, p) in
              v.visited x m (ap (find lock_rank q.1.locks) (sym at) ∙ f)
        ]

        after_next :
            (j : ℕ) (x : ServerLock)
            → find lock_rank q.1.locks j ≡ some x
            → lock_rank s + 1 ≤ j
            → (a : ServerLock) × (lookup lock_rank all j ≡ some a)
        after_next j x f p = b.1 j x (back j x f (omega (arith, p))) (omega (arith, p, from))

        visit_next :
            (x0 : ServerLock) → find lock_rank sv.locks (lock_rank s) ≡ some x0 → Ends (next s q)
        visit_next x0 here =
            ret_rule Ends q.0 (λ e. some (err e, q.1)) (rest (key_inc s.key) q.1)
              (λ e m. (err e, q.1, refl, v.table, λ n. cc))
              (λ m.
                let holds = held.holds in
                let rise : rank (key_inc s.key) ≡ lock_rank s + 1 =
                  ground (arith, rank-key_inc s.key holds.key_fits, holds.below_last) in
                let (a, found) = b.1 (lock_rank s) x0 here from in
                let fewer = locks_from-visited (rank key) (lock_rank s) all a from found in
                walks (key_inc s.key) q.1 (key_inc-IsKey s.key holds.key_fits) v.table same'
                  (
                    λ j x f p. before_next m j x f (omega (arith, rise, p)),
                    λ j x f p. after_next j x f (omega (arith, rise, p)),
                  )
                  (rw rise (omega (arith, fewer, enough))))

      step :
          (p : Tree ServerLock × Option ServerLock)
          → GetsNext P rb laws sv.locks h key fits p
          → Ends (after p)
      step p (inl (e, below)) =
          subst (λ q. Ends (after q)) (sym e) (ok, sv, refl, h, λ _ j x f. b.0 j x f (below j x f))
      step (t', none) (inr (s, e, _, _, _, _)) = cc
      step (t', some s') (inr (s, e, from, held, least, here)) =
          let is_s : s ≡ s' = ground (arith, e) in
          subst (λ x. Ends (next x (visit (record sv { locks = t' }) x))) is_s
            (let law = visit_law (record sv { locks = t' }) sv.locks s held same in
              visit_next t' s held from least (visit (record sv { locks = t' }) s) law.0 law.1
                here.0 here.1)

    each_lock-Ends : (fuel : ℕ) → Walks fuel (each_lock rb fuel visit)
    unfolding each_lock
    each_lock-Ends zero key sv fits h same b enough = absurd (omega (arith, enough))
    each_lock-Ends (suc fuel) key sv fits h same b enough =
        step fuel (each_lock rb fuel visit) (each_lock-Ends fuel) key fits sv h same b enough
          (get_server_lock rb sv.locks key none true)
          (get_server_lock-GetsNext P rb laws sv.locks h key fits)

  -- The walk over all locks from the least key on, with fuel for more locks than there are, ends; if
  -- no visit failed, `Q` holds of the lists of each lock that is left.
  pub each_lock-all :
      (fuel : ℕ) (sv : Server B)
      → IsTable P sv.locks
      → sv.recovery_pending ≡ pending
      → length (in_order sv.locks) < fuel
      → Ends (each_lock rb fuel visit key_set_zeros sv)
  unfolding key_set_zeros
  each_lock-all fuel sv h same enough =
      each_lock-Ends (in_order sv.locks) fuel key_set_zeros sv (ground arith) h same
        (
          λ j x f p. absurd (omega (arith, p)),
          λ j x f p. (x, sym (find-lookup lock_rank sv.locks j h.sorted) ∙ f),
        )
        (omega (arith, locks_from-length 0 (in_order sv.locks), enough))
