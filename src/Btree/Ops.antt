-- ===== src/Btree/Ops.antt =====
-- btree.c: the operations of the btree at the leaf that a walk ended in. `walked` and the block are
-- what btree_walk handed back.
use scoutfs_kmod_dev.Base.Lists.{length}
use scoutfs_kmod_dev.Btree.Hash.{leaf_item_hash_search}
use scoutfs_kmod_dev.Avl.{SearchResult}
use scoutfs_kmod_dev.Key.{Key}
use scoutfs_kmod_dev.Btree.{
  BtBlock, create_item, add16, search_item, sub16, item_keys, val_bytes, insert_value, delete_item,
  delete_value, set_item,
}
use scoutfs_kmod_dev.Base.{
  ℕ, Bool, Ret, ok, bug, done, ltb, List, Kernel, Option, if◌then◌else◌, err, einval, some, none,
  eexist, enoent, ◌==◌,
}

-- struct scoutfs_btree_root
pub record BtRoot : Type 0 where
  pub blkno : ℕ
  pub seq : ℕ
  pub height : ℕ

-- SCOUTFS_BTREE_MAX_VAL_LEN
abbrev pub max_val_len : ℕ
max_val_len = 896

abbrev pub invalid_item : ℕ → Bool
invalid_item val_len = ltb max_val_len val_len

abbrev pub hash_search : BtBlock → Key → Option ℕ
hash_search bt key = leaf_item_hash_search (item_keys bt) bt.level bt.buckets key

-- The offset of the item that the caller's reference is to; `held` is a reference that is in use.
unfoldable pub scoutfs_btree_lookup : Bool → Ret → BtBlock → Key → Ret × Option ℕ
scoutfs_btree_lookup held walked bt key = if held then (err einval, none) else elim walked [
  | err e ↦ (err e, none)
  | ok ↦ elim (hash_search bt key) [ some item ↦ (ok, some item) | none ↦ (err enoent, none) ]
]

abbrev pub create_new : BtBlock → Key → List ℕ → SearchResult ℕ → Kernel (Ret × BtBlock)
create_new bt key val q = elim (create_item bt key val q.par q.cmp) [
  | bug ↦ bug
  | done bt' ↦ done (ok, bt')
]

unfoldable pub scoutfs_btree_insert : Ret → BtBlock → Key → List ℕ → Kernel (Ret × BtBlock)
scoutfs_btree_insert walked bt key val =
    let q = search_item bt key in
    if invalid_item (length val) then done (err einval, bt) else elim walked [
      | err e ↦ done (err e, bt)
      | ok ↦ elim (hash_search bt key) [
        | some _ ↦ done (err eexist, bt)
        | none ↦ elim q.found [ some _ ↦ done (err eexist, bt) | none ↦ create_new bt key val q ]
      ]
    ]

unfoldable pub update_item_value : BtBlock → ℕ → List ℕ → Kernel BtBlock
update_item_value bt off val =
    let item = bt.items off in
    let bt1 = record bt {
      total_item_bytes =
          add16 bt.total_item_bytes (sub16 (val_bytes (length val)) (val_bytes item.val_len));
    } in
    elim (insert_value (delete_value bt1 item.val_off item.val_len) off val) [
      | bug ↦ bug
      | done p ↦ done (set_item p.1 off (record item { val_off = p.0; val_len = length val }))
    ]

abbrev pub update_found : BtBlock → ℕ → List ℕ → Kernel (Ret × BtBlock)
update_found bt off val = elim (update_item_value bt off val) [
  | bug ↦ bug
  | done bt' ↦ done (ok, bt')
]

unfoldable pub scoutfs_btree_update : Ret → BtBlock → Key → List ℕ → Kernel (Ret × BtBlock)
scoutfs_btree_update walked bt key val =
    if invalid_item (length val) then done (err einval, bt) else elim walked [
      | err e ↦ done (err e, bt)
      | ok ↦ elim (hash_search bt key) [
        | some item ↦ update_found bt item val
        | none ↦ done (err enoent, bt)
      ]
    ]

unfoldable pub scoutfs_btree_force : Ret → BtBlock → Key → List ℕ → Kernel (Ret × BtBlock)
scoutfs_btree_force walked bt key val =
    if invalid_item (length val) then done (err einval, bt) else elim walked [
      | err e ↦ done (err e, bt)
      | ok ↦ elim (hash_search bt key) [
        | some item ↦ update_found bt item val
        | none ↦ create_new bt key val (search_item bt key)
      ]
    ]

-- `freed` is what scoutfs_free_meta returns. The root refers to no block once the last item is gone.
unfoldable pub scoutfs_btree_delete :
    Ret → Ret → BtRoot → BtBlock → Key → Option (Kernel (Ret × BtRoot × BtBlock))
scoutfs_btree_delete walked freed root bt key = elim walked [
  | err e ↦ some (done (err e, root, bt))
  | ok ↦ elim (hash_search bt key) [
    | none ↦ some (done (err enoent, root, bt))
    | some item ↦
        let deleted : Option (Kernel (Ret × BtRoot × BtBlock)) = elim (delete_item bt item none) [
          | none ↦ none
          | some bug ↦ some bug
          | some (done p) ↦ some (done (ok, root, p.0))
        ] in
        if bt.nr_items == 1
        then elim freed [
          | err e ↦ some (done (err e, root, bt))
          | ok ↦ some (done (ok, record { blkno = 0; seq = 0; height = 0 }, bt))
        ]
        else deleted
  ]
]
