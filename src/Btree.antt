-- ===== src/Btree.antt =====
-- btree.c: the items of one block of the btree. A block is an array of items, which grows from its
-- header on, the values, which are allocated from the end of the block towards the array, and the
-- hash table at the end of a leaf. A pointer to an item is its offset in the block.
pub mod Hash
pub mod Bytes
pub mod Layout
pub mod Values
pub mod NewValue
pub mod Leaf
pub mod Create
pub mod Moves
pub mod Remove
pub mod Nodes
pub mod Sorts
pub mod Index
pub mod Grow
pub mod Ops
pub mod Block
pub mod Insert
pub mod Delete
pub mod Replace
pub mod Update
pub mod Lists
mod Tests
use scoutfs_kmod_dev.Base.{
  ℕ, zero, suc, ◌+◌, ◌*◌, ◌-◌, ◌%◌, ◌^◌, ◌==◌, leb, ltb, if◌then◌else◌, Bool, ◌&&◌, Option, none,
  some, Kernel, bug, done, List, [], ◌∷◌, Ordering,
}
use scoutfs_kmod_dev.Base.Lists.{length}
use scoutfs_kmod_dev.Key.{Key, key_compare}
use scoutfs_kmod_dev.Avl.{
  Avl, nil, node, Above, top, from_left, from_right, Place, SearchResult, avl_search, avl_insert,
  avl_delete, moved_to,
}
use scoutfs_kmod_dev.Srch.{Memory, put_le}
use scoutfs_kmod_dev.Btree.Hash.{
  Buckets, leaf_item_hash_search, leaf_item_hash_insert, leaf_item_hash_delete,
  leaf_item_hash_change, hash_nr,
}

-- struct scoutfs_btree_item; its avl node is its place in the block's tree
pub record BtItem : Type 0 where
  pub key : Key
  pub val_off : ℕ
  pub val_len : ℕ

-- struct scoutfs_btree_block: the item at each offset, the tree of the offsets, the hash table of a
-- leaf, and the bytes of the values
pub record BtBlock : Type 0 where
  pub items : ℕ → BtItem
  pub item_root : Avl ℕ
  pub nr_items : ℕ
  pub total_item_bytes : ℕ
  pub mid_free_len : ℕ
  pub last_free_off : ℕ
  pub last_free_len : ℕ
  pub level : ℕ
  pub buckets : Buckets
  pub bytes : Memory

-- sizeof of an item, and of the block's header
abbrev pub item_size : ℕ
item_size = 38

abbrev pub header_size : ℕ
header_size = 45

-- le16_add_cpu, and with the negative of a number
unfoldable pub add16 : ℕ → ℕ → ℕ
add16 a b = (a + b) % 2 ^ 16

unfoldable pub sub16 : ℕ → ℕ → ℕ
sub16 a b = (a + 2 ^ 16 - b) % 2 ^ 16

unfoldable pub val_bytes : ℕ → ℕ
val_bytes val_len = val_len + (if val_len == 0 then 0 else 2)

unfoldable pub item_len_bytes : ℕ → ℕ
item_len_bytes val_len = item_size + val_bytes val_len

abbrev pub item_bytes : BtItem → ℕ
item_bytes item = item_len_bytes item.val_len

-- `&bt->items[i]`
abbrev pub item_off : ℕ → ℕ
item_off i = header_size + item_size * i

abbrev pub item_keys : BtBlock → ℕ → Key
item_keys bt off = let item = bt.items off in item.key

unfoldable pub end_item : BtBlock → Kernel ℕ
end_item bt = if bt.nr_items == 0 then bug else done (item_off (bt.nr_items - 1))

abbrev pub mid_free_off : BtBlock → ℕ
mid_free_off bt = item_off bt.nr_items

-- the end of the free range in the middle of the block
abbrev pub mid_free_end : BtBlock → ℕ
mid_free_end bt = mid_free_off bt + bt.mid_free_len

unfoldable pub mid_free_item_room : BtBlock → ℕ → Bool
mid_free_item_room bt val_len = leb (item_len_bytes val_len) bt.mid_free_len

abbrev pub set_item : BtBlock → ℕ → BtItem → BtBlock
set_item bt off item = record bt { items = λ o. if o == off then item else bt.items o }

-- memcpy of a value
unfoldable pub write_bytes : Memory → ℕ → List ℕ → Memory
write_bytes m at [] = m
write_bytes m at (x ∷ xs) = write_bytes (λ i. if i == at then x else m i) (at + 1) xs

unfoldable pub read_bytes : ℕ → Memory → ℕ → List ℕ
read_bytes zero m at = []
read_bytes (suc n) m at = m at ∷ read_bytes n m (at + 1)

-- the value of the item at an offset
abbrev pub item_val : BtBlock → ℕ → List ℕ
item_val bt off = let item = bt.items off in read_bytes item.val_len bt.bytes item.val_off

unfoldable pub set_val_owner : Memory → ℕ → ℕ → ℕ → Memory
set_val_owner m val_off vb owner =
    put_le 2 m (val_off + vb - 2) (if owner == 0 then val_off else owner)

-- the value's offset, with the block
unfoldable pub insert_value : BtBlock → ℕ → List ℕ → Kernel (ℕ × BtBlock)
insert_value bt off val =
    let vb = val_bytes (length val) in
    let val_off = mid_free_end bt - vb in
    if length val == 0
    then done (0, bt)
    else if ltb bt.mid_free_len vb
    then bug
    else done (
      val_off,
      record bt {
        mid_free_len = sub16 bt.mid_free_len vb;
        bytes = set_val_owner (write_bytes bt.bytes val_off val) val_off vb off;
      },
    )

-- a freed range, which might be the last one
abbrev pub free_range : BtBlock → ℕ → ℕ → Bool → BtBlock
free_range bt free_off free_len is_last =
    let freed = record bt { bytes = set_val_owner bt.bytes free_off free_len 0 } in
    if is_last then record freed { last_free_off = free_off; last_free_len = free_len } else freed

unfoldable pub delete_value : BtBlock → ℕ → ℕ → BtBlock
delete_value bt val_off val_len =
    let free_len = val_bytes val_len in
    if val_len == 0
    then bt
    else if mid_free_end bt == val_off
    then record bt { mid_free_len = add16 bt.mid_free_len free_len }
    else if val_off + free_len == bt.last_free_off
    then free_range bt val_off (free_len + bt.last_free_len) Bool.true
    else if bt.last_free_off + bt.last_free_len == val_off
    then free_range bt bt.last_free_off (free_len + bt.last_free_len) Bool.true
    else free_range bt val_off free_len (ltb bt.last_free_off val_off)

-- The new item goes to the end of the array, and below `parent` in the tree.
unfoldable pub create_item : BtBlock → Key → List ℕ → Option (Place ℕ) → Ordering → Kernel BtBlock
create_item bt key val parent cmp =
    let counted = record bt {
      nr_items = add16 bt.nr_items 1;
      mid_free_len = sub16 bt.mid_free_len item_size;
    } in
    if ltb bt.mid_free_len (item_len_bytes (length val)) then bug else elim (end_item counted) [
      | bug ↦ bug
      | done off ↦
          let bt1 = record counted {
            items = λ o. if o == off then record (bt.items off) { key = key } else bt.items o;
            item_root = avl_insert parent off cmp;
          } in
          elim (leaf_item_hash_insert bt.level bt.buckets key off) [
            | bug ↦ bug
            | done b ↦ elim (insert_value (record bt1 { buckets = b }) off val) [
              | bug ↦ bug
              | done p ↦
                  let item : BtItem = record { key = key; val_off = p.0; val_len = length val } in
                  done (record (set_item p.1 off item) {
                    total_item_bytes = add16 bt.total_item_bytes (item_bytes item);
                  })
            ]
          ]
    ]

-- the node whose container is at an offset, as a pointer into the tree
unfoldable pub node_at : Above ℕ → Avl ℕ → ℕ → Option (Place ℕ)
node_at up nil off = none
node_at up (node l x h r) off =
    let left = node_at (from_left up x h r) l off in
    let right = node_at (from_right l x h up) r off in
    if x == off
    then some (record { above = up; tree = node l x h r })
    else elim left [ some p ↦ some p | none ↦ right ]

abbrev pub delete_node : Avl ℕ → ℕ → Avl ℕ
delete_node root off = elim (node_at top root off) [
  | none ↦ root
  | some p ↦ avl_delete p.above p.tree
]

abbrev pub relocate_node : Avl ℕ → ℕ → ℕ → Avl ℕ
relocate_node root to from = elim (node_at top root from) [
  | none ↦ root
  | some p ↦ moved_to to p.above p.tree
]

-- The last item of the array goes to the place `off` of a deleted one.
unfoldable pub move_end : BtBlock → ℕ → ℕ → Kernel BtBlock
move_end bt off end =
    let last = bt.items end in
    let bytes =
      if last.val_len == 0
      then bt.bytes
      else set_val_owner bt.bytes last.val_off (val_bytes last.val_len) off in
    elim (leaf_item_hash_change bt.level bt.buckets last.key off end) [
      | bug ↦ bug
      | done b ↦ done (record (set_item bt off last) {
        item_root = relocate_node bt.item_root off end;
        buckets = b;
        bytes = bytes;
      })
    ]

-- `use_after` is the item that the caller goes on to use, which might have moved.
unfoldable pub delete_item : BtBlock → ℕ → Option ℕ → Option (Kernel (BtBlock × Option ℕ))
delete_item bt off use_after =
    let item = bt.items off in
    elim (end_item bt) [
      | bug ↦ some bug
      | done end ↦
          elim (leaf_item_hash_delete (item_keys bt) hash_nr bt.level bt.buckets item.key off) [
            | none ↦ none
            | some bug ↦ some bug
            | some (done b) ↦
                let bt1 = record bt {
                  item_root = delete_node bt.item_root off;
                  buckets = b;
                  nr_items = sub16 bt.nr_items 1;
                  mid_free_len = add16 bt.mid_free_len item_size;
                  total_item_bytes = sub16 bt.total_item_bytes (item_bytes item);
                } in
                let moved = if end == off then done bt1 else move_end bt1 off end in
                let after : Option ℕ = elim use_after [
                  | none ↦ none
                  | some u ↦ some (if u == end then off else u)
                ] in
                elim moved [
                  | bug ↦ some bug
                  | done bt2 ↦ some (done (delete_value bt2 item.val_off item.val_len, after))
                ]
          ]
    ]

-- the search of the tree for a key, by cmp_key_item
abbrev pub search_item : BtBlock → Key → SearchResult ℕ
search_item bt key = avl_search (λ off. key_compare key (item_keys bt off)) bt.item_root
