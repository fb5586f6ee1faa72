-- ===== src/LockServer.antt =====
-- lock_server.c: the server grants the modes of one lock to its clients, and asks them to give up
-- what conflicts with the next request.
pub mod Entries
pub mod Exclusion
pub mod Progress
pub mod Keeps
mod Tests
use scoutfs_kmod_dev.Base.{
  ℕ, ◌+◌, ◌%◌, ◌^◌, ◌==◌, leb, if◌then◌else◌, Bool, true, false, ◌&&◌, ◌||◌, Option, none, some,
  List, [], ◌∷◌, ◌++◌, Ret, ok, err, Errno, einval, enomem, u64, not,
}

-- enum scoutfs_lock_mode of format.h
abbrev pub lock_null : ℕ
lock_null = 0

abbrev pub lock_read : ℕ
lock_read = 1

abbrev pub lock_write : ℕ
lock_write = 2

abbrev pub lock_write_only : ℕ
lock_write_only = 3

abbrev pub lock_invalid : ℕ
lock_invalid = 4

-- struct client_lock_entry; the list that it stands on is a field of the node
pub record ClientEntry : Type 0 where
  pub rid : ℕ
  pub net_id : ℕ
  pub mode : ℕ

-- struct server_lock_node, its three lists from head to tail
pub record LockNode : Type 0 where
  pub granted : List ClientEntry
  pub requested : List ClientEntry
  pub invalidated : List ClientEntry

-- The messages that the server sends on behalf of a lock. A grant carries a write version for the
-- two write modes; for the others the code leaves the message's field as it finds it, `none`.
pub data Message : Type 0 where
  invalidate : (rid old_mode new_mode : ℕ) → Message
  grant : (rid net_id old_mode new_mode : ℕ) → Option ℕ → Message

-- What process_waiting_requests works on: the node, the messages that were sent, the first one
-- first, and the static counter of write versions.
pub record Work : Type 0 where
  pub node : LockNode
  pub sent : List Message
  pub write_version : ℕ

unfoldable pub invalid_mode : ℕ → Bool
invalid_mode mode = leb lock_invalid mode

unfoldable pub invalidation_mode : ℕ → ℕ → ℕ
invalidation_mode granted requested =
    if granted == lock_write && requested == lock_read then lock_read else lock_null

unfoldable pub client_entries_compatible : ClientEntry → ClientEntry → Bool
client_entries_compatible granted requested =
    granted.mode == requested.mode && (granted.mode == lock_read || granted.mode == lock_write_only)
    || granted.rid == requested.rid && granted.mode == lock_read && requested.mode == lock_write

unfoldable pub find_entry : List ClientEntry → ℕ → Option ClientEntry
find_entry [] rid = none
find_entry (c ∷ cs) rid = if c.rid == rid then some c else find_entry cs rid

-- the list without the entry that find_entry finds
unfoldable pub del_entry : List ClientEntry → ℕ → List ClientEntry
del_entry [] rid = []
del_entry (c ∷ cs) rid = if c.rid == rid then cs else c ∷ del_entry cs rid

-- The mode that an earlier grant to the client had, and the entries without that grant.
unfoldable pub old_mode : List ClientEntry → ℕ → ℕ
old_mode granted rid = elim (find_entry granted rid) [ none ↦ lock_null | some gr ↦ gr.mode ]

unfoldable pub is_write_mode : ℕ → Bool
is_write_mode mode = mode == lock_write || mode == lock_write_only

-- list_empty
abbrev pub is_empty {ℓ} : {A : Type ℓ} → List A → Bool
is_empty [] = true
is_empty (_ ∷ _) = false

abbrev pub set_granted : Work → List ClientEntry → Work
set_granted w l = record w { node = record (w.node) { granted = l } }

abbrev pub send : Work → Message → Work
send w m = record w { sent = w.sent ++ m ∷ [] }

-- the invalidation that the server sends for a conflicting grant, and what is left once it is sent
abbrev pub asks : ClientEntry → ClientEntry → Message
asks gr req = invalidate gr.rid gr.mode (invalidation_mode gr.mode req.mode)

abbrev pub asked : ClientEntry → ClientEntry → Work → Work
asked gr req w = record w {
  sent = w.sent ++ asks gr req ∷ [];
  node = record (w.node) { invalidated = w.node.invalidated ++ gr ∷ [] };
}

-- the write version after a request for the mode
abbrev pub next_write_version : ℕ → ℕ → ℕ
next_write_version mode wv = if is_write_mode mode then u64 (wv + 1) else wv

-- the grant that answers a request
abbrev pub grant_message : ClientEntry → Work → Message
grant_message req w =
    grant req.rid req.net_id (old_mode w.node.granted req.rid) req.mode
      (if is_write_mode req.mode then some (next_write_version req.mode w.write_version) else none)

-- before the grant is sent: the client's earlier grant is gone, the write version is taken
abbrev pub granting : ClientEntry → Work → Work
granting req w = record w {
  node = record (w.node) { granted = del_entry w.node.granted req.rid };
  write_version = next_write_version req.mode w.write_version;
}

-- after it was sent: a null request's entry is freed, any other is granted
abbrev pub granted_work : ClientEntry → List ClientEntry → Work → Work
granted_work req rest w = record w {
  node = record (w.node) {
    granted =
        if req.mode == lock_null
        then del_entry w.node.granted req.rid
        else del_entry w.node.granted req.rid ++ req ∷ [];
    requested = rest;
  };
  sent = w.sent ++ grant_message req w ∷ [];
  write_version = next_write_version req.mode w.write_version;
}

-- the request at the end of the queue
abbrev pub queued : ClientEntry → Work → Work
queued clent w = record w { node = record (w.node) { requested = w.node.requested ++ clent ∷ [] } }

-- the entry that was asked to give up its mode is freed, or granted in the mode that is left
abbrev pub answered : ClientEntry → ℕ → Work → Work
answered clent new w = record w {
  node = record (w.node) {
    granted =
        if new == lock_null
        then w.node.granted
        else w.node.granted ++ record clent { mode = new } ∷ [];
    invalidated = del_entry w.node.invalidated clent.rid;
  };
}

-- `net sent m` is what the network hands back for `m` after the messages `sent`.
module _ (net : List Message → Message → Ret) where
  -- The walk over the granted entries for one request: `kept` stay, the list is still to walk.
  unfoldable pub invalidate_grants :
      ClientEntry → List ClientEntry → List ClientEntry → Work → Ret × Work
  invalidate_grants req kept [] w = (ok, set_granted w kept)
  invalidate_grants req kept (gr ∷ rest) w = elim (client_entries_compatible gr req) [
    | true ↦ invalidate_grants req (kept ++ gr ∷ []) rest w
    | false ↦ elim (net w.sent (asks gr req)) [
      | err e ↦ (err e, set_granted w (kept ++ gr ∷ rest))
      | ok ↦ invalidate_grants req kept rest (asked gr req w)
    ]
  ]

  -- A compatible request is granted: the response is sent, and then its entry is moved or freed.
  unfoldable pub grant_request : ClientEntry → List ClientEntry → Work → Ret × Work
  grant_request req rest w = elim (net w.sent (grant_message req w)) [
    | err e ↦ (err e, granting req w)
    | ok ↦ (ok, granted_work req rest w)
  ]

  -- The walk over the requests; `requested` is the node's list from the next request on.
  unfoldable pub process_requests : List ClientEntry → Work → Ret × Work
  process_requests [] w = (ok, w)
  process_requests (req ∷ rest) w =
      let (r, w1) = invalidate_grants req [] w.node.granted w in
      elim r [
        | err e ↦ (err e, w1)
        | ok ↦ elim (is_empty w1.node.invalidated) [
          | false ↦ (ok, w1)
          | true ↦
              let (r2, w2) = grant_request req rest w1 in
              elim r2 [ err e ↦ (err e, w2) | ok ↦ process_requests rest w2 ]
        ]
      ]

  -- `recovering` where some client's recovery is pending.
  unfoldable pub process_waiting_requests : Bool → Work → Ret × Work
  process_waiting_requests recovering w =
      if not (is_empty w.node.invalidated) || recovering
      then (ok, w)
      else process_requests w.node.requested w

  -- A client's request for a lock whose node is at hand; `room` where the entry could be allocated.
  unfoldable pub lock_request : Bool → Bool → ℕ → ℕ → ℕ → ℕ → Work → Ret × Work
  lock_request recovering room rid net_id old new w =
      if invalid_mode old || invalid_mode new
      then (err einval, w)
      else if not room
      then (err enomem, w)
      else process_waiting_requests recovering
          (queued (record { rid = rid; net_id = net_id; mode = new }) w)

  -- A client's answer to an invalidation.
  unfoldable pub lock_response : Bool → ℕ → ℕ → ℕ → Work → Ret × Work
  lock_response recovering rid old new w =
      if invalid_mode old || invalid_mode new
      then (err einval, w)
      else elim (find_entry w.node.invalidated rid) [
        | none ↦ (err einval, w)
        | some clent ↦ process_waiting_requests recovering (answered clent new w)
      ]
