-- ===== src/LockServer/Tests.antt =====
-- Runs of the lock server, and its theorems at concrete locks.
use scoutfs_kmod_dev.Base.{ℕ, ◌≡◌, true, false, refl, arith, Ret, ok, List, [], ◌∷◌, u64, none, inl}
use scoutfs_kmod_dev.LockServer.{
  ClientEntry, Message, invalidate, grant, Work, invalid_mode, invalidation_mode,
  client_entries_compatible, find_entry, del_entry, old_mode, is_write_mode, invalidate_grants,
  grant_request, process_requests, process_waiting_requests, lock_request, lock_response,
}
use scoutfs_kmod_dev.LockServer.Entries.{Exclusive}
use scoutfs_kmod_dev.LockServer.Exclusion.{process_waiting_requests-Exclusive}

-- What a run of the lock server computes with, to be named on `unfolding` lines.
run_of_server : Unit {0}
unfolding invalid_mode invalidation_mode client_entries_compatible find_entry del_entry old_mode
    is_write_mode invalidate_grants grant_request process_requests process_waiting_requests u64
run_of_server = tt

-- every message is delivered
abbrev delivers : List Message → Message → Ret
delivers _ _ = ok

abbrev client : ℕ → ℕ → ℕ → ClientEntry
client rid net_id mode = record { rid = rid; net_id = net_id; mode = mode }

-- client 1 writes
abbrev written : Work
written = record {
  node = record { granted = client 1 10 2 ∷ []; requested = []; invalidated = [] };
  sent = [];
  write_version = 4;
}

-- client 2 asks to read, and the server asks client 1 to go on reading
abbrev asked_to_share : Work
asked_to_share = record {
  node = record { granted = []; requested = client 2 20 1 ∷ []; invalidated = client 1 10 2 ∷ [] };
  sent = invalidate 1 2 1 ∷ [];
  write_version = 4;
}

abbrev shared : Work
shared = record {
  node = record { granted = client 1 10 1 ∷ client 2 20 1 ∷ []; requested = []; invalidated = [] };
  sent = invalidate 1 2 1 ∷ grant 2 20 0 1 none ∷ [];
  write_version = 4;
}

request_asks : lock_request delivers false true 2 20 0 1 written ≡ (ok, asked_to_share)
unfolding lock_request run_of_server
request_asks = refl

response_grants : lock_response delivers false 1 2 1 asked_to_share ≡ (ok, shared)
unfolding lock_response run_of_server
response_grants = refl

asked_to_share-Exclusive : Exclusive asked_to_share.node
asked_to_share-Exclusive = (tt, tt)

shared-Exclusive : Exclusive shared.node
shared-Exclusive = (((omega arith, (refl, inl refl)), tt), (tt, tt))

process_waiting_requests-Exclusive_example :
    Exclusive (process_waiting_requests delivers false shared).1.node
process_waiting_requests-Exclusive_example =
    process_waiting_requests-Exclusive delivers false shared shared-Exclusive
