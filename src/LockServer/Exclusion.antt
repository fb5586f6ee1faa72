-- ===== src/LockServer/Exclusion.antt =====
-- No two clients hold a lock in conflicting modes.
use scoutfs_kmod_dev.Base.{
  none, ◌==◌, ℕ, ◌≡◌, Bool, true, false, refl, sym, ◌∙◌, arith, Ret, ok, err, List, [], ◌∷◌, ◌++◌,
  subst, not, ◌||◌, some, if◌then◌else◌, enomem, einval,
}
use mathlib.Core.List.{append_assoc, append-nil}
use scoutfs_kmod_dev.Base.Lists.{All, All-append, Pairs, Pairs-snoc, Pairs-append_left}
use scoutfs_kmod_dev.Base.Rules.{option_rule, if_rule, bool_rule, ret_rule}
use scoutfs_kmod_dev.LockServer.{
  grant_message, granting, granted_work, asks, asked, ClientEntry, Message, Work,
  client_entries_compatible, del_entry, is_empty, set_granted, invalidate_grants, grant_request,
  process_requests, process_waiting_requests, lock_request, lock_null, invalidation_mode,
  lock_response, find_entry, queued, answered, invalid_mode,
}
use scoutfs_kmod_dev.LockServer.Entries.{
  Apart, Apart-flip, Exclusive, Compatible, moved, del_entry-Apart, unasked, is_empty-nil,
  grant_request-invalidated, answered-Exclusive,
}

module _ (net : List Message → Message → Ret) where
  -- After the walk over the grants the lists are as exclusive as before; if no message failed, what
  -- is still granted is compatible with the request.
  abbrev Walked : ClientEntry → List ClientEntry → Ret × Work → Type 0
  Walked req requested p =
      Exclusive p.1.node
      × (p.1.node.requested ≡ requested)
      × (p.0 ≡ ok → All (Compatible req) p.1.node.granted)

  invalidate_grants-Walked :
      (req : ClientEntry) (kept rest : List ClientEntry) (w : Work)
      → Pairs Apart ((kept ++ rest) ++ w.node.invalidated)
      → All (Compatible req) kept
      → Walked req w.node.requested (invalidate_grants net req kept rest w)
  unfolding invalidate_grants
  invalidate_grants-Walked req kept [] w h c =
      (subst (λ l. Pairs Apart (l ++ w.node.invalidated)) (append-nil kept) h, refl, λ _. c)
  invalidate_grants-Walked req kept (gr ∷ rest) w h c =
      bool_rule (Walked req w.node.requested) (client_entries_compatible gr req)
        (invalidate_grants net req (kept ++ gr ∷ []) rest w)
        (elim (net w.sent (asks gr req)) [
          | err e ↦ (err e, set_granted w (kept ++ gr ∷ rest))
          | ok ↦ invalidate_grants net req kept rest (asked gr req w)
        ])
        (λ t.
          invalidate_grants-Walked req (kept ++ gr ∷ []) rest w
            (subst (λ l. Pairs Apart (l ++ w.node.invalidated))
              (sym (append_assoc kept (gr ∷ []) rest)) h)
            (All-append (Compatible req) kept (gr ∷ []) c (t, tt)))
        (λ t.
          ret_rule (Walked req w.node.requested) (net w.sent (asks gr req))
            (λ e. (err e, set_granted w (kept ++ gr ∷ rest)))
            (invalidate_grants net req kept rest (asked gr req w)) (λ e q. (h, refl, λ q'. cc))
            (λ q.
              invalidate_grants-Walked req kept rest (asked gr req w)
                (moved kept gr rest w.node.invalidated h) c))

  -- The client's request is granted or refused by the network; who held the lock before it, in
  -- modes that are compatible with it, goes on holding it.
  grant_request-Exclusive :
      (req : ClientEntry) (rest : List ClientEntry) (w : Work)
      → w.node.invalidated ≡ []
      → Exclusive w.node
      → All (Compatible req) w.node.granted
      → Exclusive (grant_request net req rest w).1.node
  unfolding grant_request
  grant_request-Exclusive req rest w none_asked h c =
      let (apart, others) =
        del_entry-Apart req w.node.granted
          (Pairs-append_left Apart Apart-flip w.node.granted w.node.invalidated h) c in
      let left = del_entry w.node.granted req.rid in
      ret_rule (λ (p : Ret × Work). Exclusive p.1.node) (net w.sent (grant_message req w))
        (λ e. (err e, granting req w)) (ok, granted_work req rest w)
        (λ e q. unasked left w.node.invalidated none_asked others)
        (λ q. unasked _ w.node.invalidated none_asked (
          if_rule (Pairs Apart) (req.mode == lock_null) left (left ++ req ∷ []) (λ _. others)
            (λ _. Pairs-snoc Apart Apart-flip left req others apart)))

  process_requests-Exclusive :
      (reqs : List ClientEntry) (w : Work)
      → w.node.invalidated ≡ []
      → Exclusive w.node
      → Exclusive (process_requests net reqs w).1.node
  unfolding process_requests
  process_requests-Exclusive [] w e h = h
  process_requests-Exclusive (req ∷ rest) w e h =
      let p1 = invalidate_grants net req [] w.node.granted w in
      let w1 = p1.1 in
      let (exclusive, _, compatible) = invalidate_grants-Walked req [] w.node.granted w h tt in
      let p2 = grant_request net req rest w1 in
      let Q = λ (p : Ret × Work). Exclusive p.1.node in
      let granted : Ret × Work = elim p2.0 [
        | err e' ↦ (err e', p2.1)
        | ok ↦ process_requests net rest p2.1
      ] in
      ret_rule Q p1.0 (λ e'. (err e', w1))
        (elim (is_empty w1.node.invalidated) [ true ↦ granted | false ↦ (ok, w1) ])
        (λ _ _. exclusive)
        λ q.
          bool_rule Q (is_empty w1.node.invalidated) granted (ok, w1)
            (λ t.
              let none_asked = is_empty-nil w1.node.invalidated t in
              let after = grant_request-Exclusive req rest w1 none_asked exclusive (compatible q) in
              ret_rule Q p2.0 (λ e'. (err e', p2.1)) (process_requests net rest p2.1) (λ _ _. after)
                (λ _.
                  process_requests-Exclusive rest p2.1
                    (grant_request-invalidated net req rest w1 ∙ none_asked) after))
            (λ _. exclusive)

  -- Whatever the network does, after process_waiting_requests no two clients hold the lock in modes
  -- that conflict, and no client holds it twice, if that was so before.
  pub process_waiting_requests-Exclusive :
      (recovering : Bool) (w : Work)
      → Exclusive w.node
      → Exclusive (process_waiting_requests net recovering w).1.node
  unfolding process_waiting_requests
  process_waiting_requests-Exclusive recovering w h =
      if_rule (λ (p : Ret × Work). Exclusive p.1.node)
        (not (is_empty w.node.invalidated) || recovering) (ok, w)
        (process_requests net w.node.requested w) (λ _. h)
        (λ t.
          process_requests-Exclusive w.node.requested w
            (is_empty-nil w.node.invalidated (ground (arith, t))) h)

  -- Whatever the network does, lock_request leaves the lock held exclusively on every branch, errors
  -- included, if it was so before.
  pub lock_request-Exclusive :
      (recovering room : Bool) (rid net_id old new : ℕ) (w : Work)
      → Exclusive w.node
      → Exclusive (lock_request net recovering room rid net_id old new w).1.node
  unfolding lock_request
  lock_request-Exclusive recovering room rid net_id old new w h =
      let clent : ClientEntry = record { rid = rid; net_id = net_id; mode = new } in
      let processed = process_waiting_requests net recovering (queued clent w) in
      let allocated : Ret × Work = if not room then (err enomem, w) else processed in
      let Q = λ (p : Ret × Work). Exclusive p.1.node in
      if_rule Q (invalid_mode old || invalid_mode new) (err einval, w) allocated (λ _. h)
        (λ _.
          if_rule Q (not room) (err enomem, w) processed (λ _. h)
            (λ _. process_waiting_requests-Exclusive recovering (queued clent w) h))

  -- Whatever the network does, lock_response leaves the lock held exclusively on every branch, errors
  -- included, if it was so before and the mode that the client keeps is one that invalidation_mode
  -- asks of its entry for some request.
  pub lock_response-Exclusive :
      (recovering : Bool) (rid old new : ℕ) (w : Work)
      → Exclusive w.node
      → ((c : ClientEntry)
          → find_entry w.node.invalidated rid ≡ some c
          → (requested : ℕ) × (new ≡ invalidation_mode c.mode requested))
      → Exclusive (lock_response net recovering rid old new w).1.node
  unfolding lock_response
  lock_response-Exclusive recovering rid old new w h asked_for =
      let Q = λ (p : Ret × Work). Exclusive p.1.node in
      let found = find_entry w.node.invalidated rid in
      let freed : Ret × Work = elim found [
        | none ↦ (err einval, w)
        | some clent ↦ process_waiting_requests net recovering (answered clent new w)
      ] in
      if_rule Q (invalid_mode old || invalid_mode new) (err einval, w) freed (λ _. h)
        (λ _.
          option_rule Q found (err einval, w)
            (λ clent. process_waiting_requests net recovering (answered clent new w)) (λ _. h)
            (λ clent q.
              process_waiting_requests-Exclusive recovering (answered clent new w)
                (answered-Exclusive clent new rid w q h (asked_for clent q))))
