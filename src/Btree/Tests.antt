-- ===== src/Btree/Tests.antt =====
-- A leaf block with two items, of which the first has a value of three bytes.
use scoutfs_kmod_dev.Btree.Lists.{TakesFrom, ListItem, insert_list_leaf, insert_list_leaf-TakesFrom}
use scoutfs_kmod_dev.Btree.Hash.Remove.{Removes, leaf_item_hash_delete-Removes}
use scoutfs_kmod_dev.Avl.Balance.{IsAvl}
use scoutfs_kmod_dev.Btree.Delete.{Deleted, scoutfs_btree_delete-Deleted}
use scoutfs_kmod_dev.Btree.Ops.{
  scoutfs_btree_force, BtRoot, scoutfs_btree_update, scoutfs_btree_lookup, scoutfs_btree_insert,
  scoutfs_btree_delete,
}
use scoutfs_kmod_dev.Btree.Insert.{Inserted, scoutfs_btree_insert-Inserted}
use scoutfs_kmod_dev.Btree.Update.{
  Looks, Updated, scoutfs_btree_update-Updated, scoutfs_btree_lookup-Looks, Sets,
  scoutfs_btree_force-Sets,
}
use scoutfs_kmod_dev.Btree.Hash.Probe.{Passes}
use scoutfs_kmod_dev.Key.Order.{IsKey}
use scoutfs_kmod_dev.Avl.{nil, node, node_height}
use scoutfs_kmod_dev.Btree.Values.{HasLayout}
use scoutfs_kmod_dev.Btree.Leaf.{IsLeaf, Live}
use scoutfs_kmod_dev.Btree.Hash.Load.{populated}
use scoutfs_kmod_dev.Btree.Hash.{
  Buckets, leaf_item_hash_ind, hash_nr, scoutfs_hash32, set_bucket, fnv1a32_from, key_bytes,
  le_bytes, leaf_item_hash_delete,
}
use scoutfs_kmod_dev.Btree.Block.{IsBlock}
use scoutfs_kmod_dev.Btree.{
  item_keys, val_bytes, BtBlock, BtItem, node, hash_nr, nil, leaf_item_hash_delete,
  mid_free_item_room, item_len_bytes,
}
use scoutfs_kmod_dev.Base.{
  zero, suc, ℕ, ◌<◌, ◌≢◌, arith, ◌≡◌, refl, u64_size, if◌then◌else◌, Bool-cases, ◌==◌, suc, inl,
  ◌↔◌, ◌%◌, subst, inr, ◌^◌, sym, ==_iff, List, some, ok, ◌∷◌, done, Bool, [], true,
}
use scoutfs_kmod_dev.Key.{Key}
use scoutfs_kmod_dev.Btree.Hash.Table.{Inserts, fill-Inserts, IsTable, Has}

abbrev key_a : Key
key_a = record { zone = 1; first = 2; type = 3; second = 4; third = 5; fourth = 6 }

abbrev key_b : Key
key_b = record { zone = 1; first = 2; type = 3; second = 9; third = 5; fourth = 6 }

abbrev key_c : Key
key_c = record { zone = 1; first = 2; type = 3; second = 7; third = 5; fourth = 6 }

abbrev two_items : ℕ → BtItem
two_items o =
    if o == 45
    then record { key = key_b; val_off = 61167; val_len = 3 }
    else record { key = key_a; val_off = 0; val_len = 0 }

abbrev no_buckets : Buckets
no_buckets i = 0

abbrev one_bucket : Buckets
one_bucket = set_bucket no_buckets 935 45

abbrev two_buckets : Buckets
two_buckets = set_bucket one_bucket 2104 83

abbrev two_leaf : BtBlock
two_leaf = record {
  items = two_items;
  item_root = node (node nil 83 1 nil) 45 2 nil;
  nr_items = 2;
  total_item_bytes = 81;
  mid_free_len = 61046;
  last_free_off = 0;
  last_free_len = 0;
  level = 0;
  buckets = two_buckets;
  bytes = λ i. i % 2 ^ 8;
}

abbrev two_keys : ℕ → Key
two_keys = item_keys two_leaf

home_b : leaf_item_hash_ind key_b ≡ 935
unfolding leaf_item_hash_ind scoutfs_hash32 fnv1a32_from key_bytes le_bytes
home_b = refl

home_a : leaf_item_hash_ind key_a ≡ 2104
unfolding leaf_item_hash_ind scoutfs_hash32 fnv1a32_from key_bytes le_bytes
home_a = refl

-- an item in its own bucket
at_home : (b : Buckets) (i p : ℕ) → i ≡ p → Passes b i p
at_home b i p e q k d = absurd (ground (arith, e, d))

none_populated : (n : ℕ) → populated n no_buckets ≡ 0
unfolding populated
none_populated zero = refl
none_populated (suc n) = omega (arith, none_populated n)

no_table : IsTable two_keys no_buckets
no_table = record { reach = λ p l n. absurd (n refl); one = λ p q l k n. absurd (n refl) }

first_in : Inserts two_keys no_buckets 45 one_bucket
first_in =
    fill-Inserts two_keys no_buckets 45 935 no_table (omega arith) (λ (p, l, e). omega (arith, e))
      (omega arith) refl (at_home no_buckets _ 935 home_b)

one-Has : (x : ℕ) → x ≢ 0 → Has one_bucket x → x ≡ 45
one-Has x n a = elim ((first_in.has x n).0 a) [ inl e ↦ e | inr (p, l, e) ↦ absurd (n (sym e)) ]

second_in : Inserts two_keys one_bucket 83 two_buckets
second_in =
    fill-Inserts two_keys one_bucket 83 2104 first_in.table (omega arith)
      (λ a. omega (arith, one-Has 83 (omega arith) a)) (omega arith) refl
      (at_home one_bucket _ 2104 home_a)

two-Has : (x : ℕ) → x ≢ 0 → Has two_buckets x ↔ Live 2 x
two-Has x n = (
  λ a. elim ((second_in.has x n).0 a) [
    | inl e ↦ (1, omega arith, e)
    | inr m ↦ (0, omega arith, one-Has x n m)
  ],
  λ (i, l, e). (second_in.has x n).1 (elim (Bool-cases (x == 83)) [
    | inl f ↦ inl ((==_iff x 83).0 f)
    | inr f ↦ inr ((first_in.has x n).1 (inl (ground (arith, f, l, e))))
  ]),
)

two_layout : HasLayout (Live 2) two_leaf
unfolding val_bytes
two_layout = record {
  inside = λ o l n. ground (arith, n);
  apart = λ o p l m n z w. ground (arith, n, z, w);
  none_last = λ e. refl;
  last = λ n. absurd (n refl);
}

two_leaf-IsLeaf : IsLeaf two_leaf
two_leaf-IsLeaf = record {
  leaf = refl;
  table = second_in.table;
  has = two-Has;
  loaded = omega (arith, second_in.loaded, first_in.loaded, none_populated hash_nr);
  layout = two_layout;
  short = omega arith;
}

key-IsKey :
    (n : ℕ)
    → n < u64_size
    → IsKey (record { zone = 1; first = 2; type = 3; second = n; third = 5; fourth = 6 })
key-IsKey n h = record {
  zone_fits = omega arith;
  first_fits = omega arith;
  type_fits = omega arith;
  second_fits = h;
  third_fits = omega arith;
  fourth_fits = omega arith;
}

two_root-IsAvl : IsAvl two_leaf.item_root
unfolding node_height
two_root-IsAvl = omega arith

two_leaf-IsBlock : IsBlock two_leaf
two_leaf-IsBlock = record {
  leaf = two_leaf-IsLeaf;
  fits = λ o l. elim (Bool-cases (o == 45)) [
    | inl e ↦ subst (λ x. IsKey (two_keys x)) (sym ((==_iff o 45).0 e)) (key-IsKey 9 (omega arith))
    | inr e ↦
        let at : o ≡ 83 = ground (arith, e, l.1, l.2) in
        subst (λ x. IsKey (two_keys x)) (sym at) (key-IsKey 4 (omega arith))
  ];
  index = record {
    balanced = two_root-IsAvl;
    sorted = omega arith;
    members = λ o. (
      λ m. elim m [
        | inl e ↦ (1, omega arith, e)
        | inr (inl e) ↦ (0, omega arith, e)
        | inr (inr z) ↦ absurd z
      ],
      λ (i, l, e). elim (Bool-cases (o == 83)) [
        | inl f ↦ inl ((==_iff o 83).0 f)
        | inr f ↦ inr (inl (ground (arith, f, l, e)))
      ],
    );
    counted = refl;
  };
}

leaf_item_hash_delete-Removes_example :
    (b' : Buckets) × (leaf_item_hash_delete two_keys hash_nr 0 two_buckets (two_keys 83) 83
      ≡ some (done b'))
    × Removes two_keys two_buckets 83 b'
leaf_item_hash_delete-Removes_example =
    leaf_item_hash_delete-Removes two_keys two_buckets 83 second_in.table (omega arith)
      (2104, omega arith, refl)
      (omega (arith, second_in.loaded, first_in.loaded, none_populated hash_nr))

scoutfs_btree_lookup-Looks_example :
    Looks two_leaf two_leaf-IsBlock key_a (scoutfs_btree_lookup Bool.false ok two_leaf key_a)
scoutfs_btree_lookup-Looks_example = scoutfs_btree_lookup-Looks two_leaf two_leaf-IsBlock key_a

two_leaf_room : mid_free_item_room two_leaf 4 ≡ true
unfolding mid_free_item_room item_len_bytes val_bytes
two_leaf_room = refl

abbrev four_bytes : List ℕ
four_bytes = 11 ∷ 22 ∷ 33 ∷ 44 ∷ []

scoutfs_btree_insert-Inserted_example :
    Inserted two_leaf two_leaf-IsBlock key_c four_bytes
      (key-IsKey 7 (omega arith))
      two_leaf_room
      (scoutfs_btree_insert ok two_leaf key_c four_bytes)
scoutfs_btree_insert-Inserted_example =
    scoutfs_btree_insert-Inserted two_leaf two_leaf-IsBlock key_c four_bytes
      (key-IsKey 7 (omega arith)) two_leaf_room (omega arith)

scoutfs_btree_update-Updated_example :
    Updated two_leaf two_leaf-IsBlock key_b four_bytes two_leaf_room
      (omega arith)
      (scoutfs_btree_update ok two_leaf key_b four_bytes)
scoutfs_btree_update-Updated_example =
    scoutfs_btree_update-Updated two_leaf two_leaf-IsBlock key_b four_bytes two_leaf_room
      (omega arith)

scoutfs_btree_force-Sets_example :
    (bt' : BtBlock) × (scoutfs_btree_force ok two_leaf key_b four_bytes ≡ done (ok, bt'))
    × Sets two_leaf key_b four_bytes bt'
scoutfs_btree_force-Sets_example =
    scoutfs_btree_force-Sets two_leaf two_leaf-IsBlock key_b four_bytes two_leaf_room (omega arith)
      (key-IsKey 9 (omega arith))

abbrev two_root : BtRoot
two_root = record { blkno = 12; seq = 3; height = 1 }

scoutfs_btree_delete-Deleted_example :
    Deleted ok two_root two_leaf two_leaf-IsBlock key_b
      (scoutfs_btree_delete ok ok two_root two_leaf key_b)
scoutfs_btree_delete-Deleted_example =
    scoutfs_btree_delete-Deleted ok two_root two_leaf two_leaf-IsBlock key_b

abbrev two_list : List ListItem
two_list = record { key = key_b; val = four_bytes } ∷ []

insert_list_leaf-TakesFrom_example :
    TakesFrom key_b two_leaf
      (record { key = key_c; val = four_bytes })
      two_list
      (insert_list_leaf key_b two_leaf (record { key = key_c; val = four_bytes }) two_list)
insert_list_leaf-TakesFrom_example =
    insert_list_leaf-TakesFrom key_b two_leaf (record { key = key_c; val = four_bytes }) two_list
      two_leaf-IsBlock (key-IsKey 7 (omega arith), (key-IsKey 9 (omega arith), tt)) two_leaf_room
