-- ===== src/LockServer/Keeps.antt =====
-- What is said of every entry of a lock, over process_waiting_requests.
use scoutfs_kmod_dev.Base.{Ret, ok, err, ℕ, List, [], ◌∷◌, ◌++◌, true, false, not, ◌||◌, ◌==◌, Bool}
use scoutfs_kmod_dev.Base.Lists.{All, All-append}
use scoutfs_kmod_dev.Base.Rules.{if_rule, bool_rule, ret_rule}
use scoutfs_kmod_dev.LockServer.{
  ClientEntry, LockNode, Message, Work, asks, asked, granting, granted_work, grant_message,
  set_granted, del_entry, invalidate_grants, grant_request, process_requests,
  process_waiting_requests, client_entries_compatible, is_empty, lock_null,
}

abbrev pub Entries : (ClientEntry → Type 0) → LockNode → Type 0
Entries E n = All E n.granted × All E n.requested × All E n.invalidated

module _ (net : List Message → Message → Ret) (E : ClientEntry → Type 0) where
  abbrev Kept : Ret × Work → Type 0
  Kept p = Entries E p.1.node

  del_entry-keeps : (l : List ClientEntry) (rid : ℕ) → All E l → All E (del_entry l rid)
  unfolding del_entry
  del_entry-keeps [] rid h = tt
  del_entry-keeps (c ∷ cs) rid h =
      if_rule (All E) (c.rid == rid) _ _ (λ _. h.1) (λ _. (h.0, del_entry-keeps cs rid h.1))

  invalidate_grants-keeps :
      (req : ClientEntry) (kept rest : List ClientEntry) (w : Work)
      → All E kept
      → All E rest
      → All E w.node.requested
      → All E w.node.invalidated
      → Kept (invalidate_grants net req kept rest w)
  unfolding invalidate_grants
  invalidate_grants-keeps req kept [] w k r q i = (k, q, i)
  invalidate_grants-keeps req kept (gr ∷ rest) w k r q i =
      bool_rule Kept (client_entries_compatible gr req)
        (invalidate_grants net req (kept ++ gr ∷ []) rest w)
        (elim (net w.sent (asks gr req)) [
          | err e ↦ (err e, set_granted w (kept ++ gr ∷ rest))
          | ok ↦ invalidate_grants net req kept rest (asked gr req w)
        ])
        (λ _.
          invalidate_grants-keeps req (kept ++ gr ∷ []) rest w
            (All-append E kept (gr ∷ []) k (r.0, tt)) r.1 q i)
        (λ _.
          ret_rule Kept (net w.sent (asks gr req)) (λ e. (err e, set_granted w (kept ++ gr ∷ rest)))
            (invalidate_grants net req kept rest (asked gr req w))
            (λ _ _. (All-append E kept (gr ∷ rest) k r, q, i))
            (λ _.
              invalidate_grants-keeps req kept rest (asked gr req w) k r.1 q
                (All-append E w.node.invalidated (gr ∷ []) i (r.0, tt))))

  grant_request-keeps :
      (req : ClientEntry) (rest : List ClientEntry) (w : Work)
      → E req
      → All E rest
      → Entries E w.node
      → Kept (grant_request net req rest w)
  unfolding grant_request
  grant_request-keeps req rest w e r h =
      let left = del_entry-keeps w.node.granted req.rid h.0 in
      ret_rule Kept (net w.sent (grant_message req w)) (λ e'. (err e', granting req w))
        (ok, granted_work req rest w) (λ _ _. (left, h.1, h.2))
        (λ _. (
          if_rule (All E) (req.mode == lock_null) _ _ (λ _. left)
              (λ _. All-append E (del_entry w.node.granted req.rid) (req ∷ []) left (e, tt)),
          r,
          h.2,
        ))

  process_requests-keeps :
      (reqs : List ClientEntry) (w : Work)
      → All E reqs
      → Entries E w.node
      → Kept (process_requests net reqs w)
  unfolding process_requests
  process_requests-keeps [] w r h = h
  process_requests-keeps (req ∷ rest) w r h =
      let p1 = invalidate_grants net req [] w.node.granted w in
      let w1 = p1.1 in
      let h1 = invalidate_grants-keeps req [] w.node.granted w tt h.0 h.1 h.2 in
      let p2 = grant_request net req rest w1 in
      let granted : Ret × Work = elim p2.0 [
        | err e' ↦ (err e', p2.1)
        | ok ↦ process_requests net rest p2.1
      ] in
      let h2 = grant_request-keeps req rest w1 r.0 r.1 h1 in
      ret_rule Kept p1.0 (λ e'. (err e', w1))
        (elim (is_empty w1.node.invalidated) [ true ↦ granted | false ↦ (ok, w1) ]) (λ _ _. h1)
        (λ _.
          bool_rule Kept (is_empty w1.node.invalidated) granted (ok, w1)
            (λ _.
              ret_rule Kept p2.0 (λ e'. (err e', p2.1)) (process_requests net rest p2.1) (λ _ _. h2)
                (λ _. process_requests-keeps rest p2.1 r.1 h2))
            (λ _. h1))

  pub process_waiting_requests-keeps :
      (recovering : Bool) (w : Work)
      → Entries E w.node
      → Entries E (process_waiting_requests net recovering w).1.node
  unfolding process_waiting_requests
  process_waiting_requests-keeps recovering w h =
      if_rule Kept (not (is_empty w.node.invalidated) || recovering) (ok, w)
        (process_requests net w.node.requested w) (λ _. h)
        (λ _. process_requests-keeps w.node.requested w h.1 h)
