-- ===== src/Lib.antt =====
-- scoutfs is a clustered in-kernel filesystem. Nodes keep their items under keys in btrees, describe
-- free space and file data by extents, and hold cluster locks that a server grants.
--
-- The parts that are modelled, and how they interact:
--
--   src/key.h, src/cmp.h     Key: keys, the index of every item and of every lock. Key is the record of
--                            a key's fields, key_compare and the other functions have the source's
--                            names less `scoutfs_`. Key/Order reads a key as one number, Key/Succ
--                            is about the steps to the next key.
--   src/ext.c, src/ext.h     Ext: extents over a caller's store of extents (free extents of alloc.c,
--                            file extents of data.c). ExtOps is struct scoutfs_ext_ops, its callbacks
--                            are parameters; Ext/Store has the laws that they are taken to keep,
--                            and Ext/ListStore is a store that keeps them. The abstract view of a
--                            store is the set of extents that it holds, and of a set what it says
--                            of each block (Maps). Ext/Changes is the undo of apply_changes,
--                            Ext/Collected the changes on the way, Ext/Insert, Ext/Remove and Ext/Alloc
--                            the operations, Ext/Reliable ext_insert on a store that takes every
--                            change; Ext/Set has the definition of ext_set.
--   src/spbm.c               Spbm: a sparse bitmap, which the lock server keeps the recovering clients
--                            in. Spbm/Store has its invariant, Spbm/Set, Spbm/Clear and Spbm/Empty
--                            are about the operations.
--   src/tseq.c               Tseq: the entries of a debugfs file, each at the least free position.
--                            Tseq/Fill counts positions, Tseq/Walk is the descent of
--                            scoutfs_tseq_add, Tseq/Add its result and Tseq/Next the search.
--   linux/rbtree.h           RbTree: the trees that the source's loops walk. RbOps is what the kernel
--                            does to a tree, IsRbOps that it keeps the order of the nodes;
--                            RbTree/Order, RbTree/Search and RbTree/First are about the walks of the
--                            source,
--                            RbTree/Spine is an instance that keeps the laws.
--   src/lock_server.c        LockServer: one lock of the server, with the lists of the clients that
--                            hold it, wait for it, or were asked to give it up. LockNode is struct
--                            server_lock_node, lock_request and lock_response are
--                            scoutfs_lock_server_request and scoutfs_lock_server_response.
--                            LockServer/Exclusion is about who holds a lock at once,
--                            LockServer/Progress about the order of the answers.
--                            LockTable: the tree of all locks, ServerLock with its place in the tree
--                            and its references, get_server_lock and put_server_lock, and the
--                            operations that find their lock, or walk all locks (each_lock);
--                            LockTable/Recovery has the greeting, the recovery and the farewell of a
--                            client. LockTable/Invariant says what a table is between operations;
--                            Walk, Get, Alloc and Put are about finding and freeing a lock, Each about
--                            the walk over all locks, Granted and InTurn about the locks of a
--                            recovery response, Requests, Resumed, Recovered and Farewell about the
--                            operations.
--   src/avl.c                Avl: the AVL tree that orders the items of a btree block. A pointer to a
--                            node is its subtree with the path to the root (Place), the path's steps
--                            are the parents. avl_search, avl_insert, avl_delete and the walks have the
--                            source's names less `scoutfs_`. Avl/Order and Avl/Balance say what a tree
--                            keeps, Avl/Height bounds it, Avl/Rebalance is about the rotations, and
--                            Avl/Search, Avl/Insert, Avl/Delete and Avl/Walk about the operations.
--                            Avl/Links has the links between the nodes by their offsets, and
--                            avl_relocate on them; Linked, Fields and Relink are about which tree the
--                            links stand for, moved_to being that tree after avl_relocate, which
--                            Avl/Relocate is about and the btree uses.
--   src/btree.c, src/hash.h  Btree: the items of one block of the btree. BtBlock is struct
--                            scoutfs_btree_block, a pointer to an item is its offset, and the values
--                            are bytes of the block's memory. The functions have the source's names.
--                            Btree/Hash is the hash table at the end of a leaf; Distance, Probe, Load,
--                            Table, Sweep, Remove and Change below it are about probes, the number of
--                            populated buckets and the operations. Btree/Bytes, Layout, Values and
--                            NewValue are about the values and the free ranges, Nodes, Sorts, Index
--                            and Grow about the tree of the items; Leaf, Create, Moves, Remove and
--                            Replace about the array and the hash table together. Btree/Ops has
--                            lookup, insert, update, force and delete at the leaf that a walk ended in;
--                            Block says what a leaf is and which map it stands for, Insert, Delete
--                            and Update are about the operations, and Lists has the loop of
--                            scoutfs_btree_insert_list over one leaf.
--   src/srch.c               Srch: the entries of search files, which find inodes by the hash of an
--                            xattr's name. Memory is bytes by address; encode_entry and decode_entry
--                            have the source's names. Srch/Memory is about words in memory,
--                            Srch/Encode about one word and Srch/Entries about an entry, Srch/Order
--                            about the order of entries, Srch/Tree about the way to a block.
--
-- Base passes on library names and has the machine's words, the kernel's error returns (Ret, and
-- Kernel for code that may meet a BUG_ON), list lemmas and the rules for branches.
--
-- Numbers are natural numbers below the size of their C type; u64 arithmetic wraps in add64 and
-- sub64, a 16-bit field in add16 and sub16, and a height in u8. Extents that are handed to the
-- operations end below 2^64 (Fits). A loop is a structural recursion on what it walks. Only the
-- walks over all locks, which each start at the root again from the next key, run on fuel; more fuel
-- than there are locks is enough, since each step goes on from a greater key and makes no lock. The
-- loop of height_for_blk runs on fuel too: five rounds are enough below 4094^5 blocks. The loops
-- over the hash table of a leaf visit as many buckets as there are at most, and so does the loop
-- that hashes the items after a deleted one again, since it ends at an empty bucket. A change of a
-- list in place is the new list; the lists of a lock node hold entries by value, since an entry
-- stands on one list only. A lock that is held is a copy of the tree's node, which is written back
-- when it is put. Positions of Tseq are natural numbers, since they stay below the number of entries
-- in memory.
--
-- Parameters: the callbacks of the extent store with the laws of IsExtStore, the kernel's rbtree and
-- bitmap calls with the laws of IsRbOps, IsInsertAugmented and IsBitmap, and the answer of the
-- network for each message, and the records of lock_clients, about which nothing is assumed; and
-- fls64 with the law of IsFls. Whether an allocation succeeds is an argument (`room`), for the locks
-- of a recovery response a function of the index of the lock, and so is what btree_walk hands back and whether freeing a block succeeds. The mutexes are not modelled:
-- each operation runs under its lock's mutex, so it is one step.
--
-- Not modelled: scoutfs_spbm_destroy, scoutfs_tseq_del, the lock server's set-up, tear-down and
-- recovery timeout; the walks, splits, joins and merges of the btree and the compaction of the
-- values in a block; the allocators, the item cache, the client's locks, the network, quorum, the
-- blocks and the compaction of search files, the VFS operations, tracing and counters.
pub mod Base
pub mod Key
pub mod Ext
pub mod LockServer
pub mod Avl
pub mod Btree
pub mod LockTable
pub mod RbTree
pub mod Spbm
pub mod Srch
pub mod Tseq
