-- ===== src/Btree/Hash.antt =====
-- btree.c and hash.h: the hash table of a leaf block, from keys to the offsets of their items. It
-- is probed linearly, and an offset of zero is an empty bucket.
pub mod Distance
pub mod Probe
pub mod Load
pub mod Table
pub mod Sweep
pub mod Remove
pub mod Change
use scoutfs_kmod_dev.Base.{
  ℕ, zero, suc, ◌+◌, ◌*◌, ◌/◌, ◌%◌, ◌^◌, ◌==◌, leb, ltb, if◌then◌else◌, Bool, Option, none, some,
  Kernel, bug, done, List, [], ◌∷◌, ◌++◌, Ordering,
}
use scoutfs_kmod_dev.Key.{Key, key_compare}
use Prim.Native.Nat.{bit_xor}

-- the `n` bytes of a little-endian word
unfoldable pub le_bytes : ℕ → ℕ → List ℕ
le_bytes zero val = []
le_bytes (suc n) val = val % 2 ^ 8 ∷ le_bytes n (val / 2 ^ 8)

-- struct scoutfs_key in memory
unfoldable pub key_bytes : Key → List ℕ
key_bytes k =
    le_bytes 1 k.zone
    ++ le_bytes 8 k.first
    ++ le_bytes 1 k.type
    ++ le_bytes 8 k.second
    ++ le_bytes 8 k.third
    ++ le_bytes 1 k.fourth

unfoldable pub fnv1a32_from : ℕ → List ℕ → ℕ
fnv1a32_from hash [] = hash
fnv1a32_from hash (byte ∷ bytes) = fnv1a32_from (bit_xor hash byte * 0x01000193 % 2 ^ 32) bytes

unfoldable pub scoutfs_hash32 : List ℕ → ℕ
scoutfs_hash32 bytes = fnv1a32_from 0x811c9dc5 bytes

-- SCOUTFS_BTREE_LEAF_ITEM_HASH_NR: an item has 38 bytes, and a block 65536, less 45 for its header.
abbrev pub hash_nr : ℕ
hash_nr = 2182

unfoldable pub leaf_item_hash_ind : Key → ℕ
leaf_item_hash_ind key = scoutfs_hash32 (key_bytes key) % hash_nr

abbrev pub Buckets : Type 0
Buckets = ℕ → ℕ

abbrev pub set_bucket : Buckets → ℕ → ℕ → Buckets
set_bucket b i off = λ j. if j == i then off else b j

unfoldable pub next_bucket : ℕ → ℕ
next_bucket i = if leb hash_nr (i + 1) then 0 else i + 1

abbrev pub same_key : Key → Key → Bool
same_key a b = elim (key_compare a b) [
  | Ordering.eq ↦ Bool.true
  | Ordering.lt ↦ Bool.false
  | Ordering.gt ↦ Bool.false
]

-- `keys` is the key of the item at each offset. The loops of foreach_leaf_item_hash_bucket have `nr`
-- more buckets to visit.
module _ (keys : ℕ → Key) where
  unfoldable pub search_from : ℕ → Buckets → Key → ℕ → Option ℕ
  search_from zero b key i = none
  search_from (suc nr) b key i =
      let rest = search_from nr b key (next_bucket i) in
      if b i == 0 then none else if same_key key (keys (b i)) then some (b i) else rest

  unfoldable pub leaf_item_hash_search : ℕ → Buckets → Key → Option ℕ
  leaf_item_hash_search level b key =
      if ltb 0 level then none else search_from hash_nr b key (leaf_item_hash_ind key)

unfoldable pub insert_from : ℕ → Buckets → ℕ → ℕ → Kernel Buckets
insert_from zero b off i = bug
insert_from (suc nr) b off i =
    let rest = insert_from nr b off (next_bucket i) in
    if b i == 0 then done (set_bucket b i off) else rest

unfoldable pub leaf_item_hash_insert : ℕ → Buckets → Key → ℕ → Kernel Buckets
leaf_item_hash_insert level b key off =
    if ltb 0 level then done b else insert_from hash_nr b off (leaf_item_hash_ind key)

-- the bucket that was emptied, with the buckets
unfoldable pub delete_from : ℕ → Buckets → ℕ → ℕ → Kernel (ℕ × Buckets)
delete_from zero b del_off i = done (i, b)
delete_from (suc nr) b del_off i =
    let rest = delete_from nr b del_off (next_bucket i) in
    if b i == 0 then bug else if b i == del_off then done (i, set_bucket b i 0) else rest

module _ (keys : ℕ → Key) where
  -- The populated buckets after bucket `i` are inserted again: `none` where they were not all within
  -- `fuel` buckets.
  unfoldable pub rehash_after : ℕ → Buckets → ℕ → Option (Kernel Buckets)
  rehash_after zero b i = none
  rehash_after (suc fuel) b i =
      let i' = next_bucket i in
      let off = b i' in
      let inserted = leaf_item_hash_insert 0 (set_bucket b i' 0) (keys off) off in
      if off == 0
      then some (done b)
      else elim inserted [ bug ↦ some bug | done b' ↦ rehash_after fuel b' i' ]

  unfoldable pub leaf_item_hash_delete : ℕ → ℕ → Buckets → Key → ℕ → Option (Kernel Buckets)
  leaf_item_hash_delete fuel level b key del_off =
      if ltb 0 level
      then some (done b)
      else elim (delete_from hash_nr b del_off (leaf_item_hash_ind key)) [
        | bug ↦ some bug
        | done p ↦ rehash_after fuel p.1 p.0
      ]

unfoldable pub change_from : ℕ → Buckets → ℕ → ℕ → ℕ → Kernel Buckets
change_from zero b to from i = done b
change_from (suc nr) b to from i =
    let rest = change_from nr b to from (next_bucket i) in
    if b i == 0 then bug else if b i == from then done (set_bucket b i to) else rest

unfoldable pub leaf_item_hash_change : ℕ → Buckets → Key → ℕ → ℕ → Kernel Buckets
leaf_item_hash_change level b key to from =
    if ltb 0 level then done b else change_from hash_nr b to from (leaf_item_hash_ind key)
