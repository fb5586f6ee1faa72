-- ===== src/Btree/Create.antt =====
-- create_item in a leaf.
use scoutfs_kmod_dev.Btree.Hash.Load.{load}
use scoutfs_kmod_dev.Btree.Layout.{IsLayout, IsLayout-move}
use scoutfs_kmod_dev.Btree.Hash.Change.{IsTable_agree}
use scoutfs_kmod_dev.Btree.NewValue.{Stores, insert_value-Stores, if_other, if_same, valued, With}
use scoutfs_kmod_dev.Btree.Values.{HasLayout, val_end}
use scoutfs_kmod_dev.Btree.Hash.Table.{Inserts, Has, leaf_item_hash_insert-Inserts, IsTable}
use scoutfs_kmod_dev.Base.Lists.{length}
use scoutfs_kmod_dev.Btree.Leaf.{IsLeaf, Live, Live-bound, IsLeaf-short, Live_suc, Live_more}
use scoutfs_kmod_dev.Btree.Hash.{Buckets, leaf_item_hash_insert}
use scoutfs_kmod_dev.Avl.{Place, avl_insert, Avl}
use scoutfs_kmod_dev.Key.{Key}
use scoutfs_kmod_dev.Btree.{
  BtBlock, Key, Place, BtItem, create_item, item_off, Buckets, length, item_len_bytes, set_item,
  add16, leaf_item_hash_insert, sub16, item_bytes, item_size, val_bytes, insert_value, item_keys,
  mid_free_end, item_val, read_bytes, end_item,
}
use scoutfs_kmod_dev.Base.{
  ℕ, ltb, List, Option, Ordering, if◌then◌else◌, ◌≤◌, ◌==◌, ◌≡◌, ap, done, ◌≢◌, arith, ◌+◌, false,
  ◌<◌, sym, refl, ◌^◌, ◌∙◌, subst, Bool-cases, ◌↔◌, inl, ==_iff, inr, bug, ◌-◌,
}

-- `key` and `val` are those of the leaf's one item more, at the end of the array.
pub record Creates (bt : BtBlock) (k : Key) (val : List ℕ) (root : Avl ℕ) (bt' : BtBlock)
    : Type 0 where
  pub leaf : IsLeaf bt'
  pub nr_items : bt'.nr_items ≡ bt.nr_items + 1
  pub item_root : bt'.item_root ≡ root
  pub key : item_keys bt' (item_off bt.nr_items) ≡ k
  pub value : item_val bt' (item_off bt.nr_items) ≡ val
  pub keys : (o : ℕ) → Live bt.nr_items o → item_keys bt' o ≡ item_keys bt o
  pub values : (o : ℕ) → Live bt.nr_items o → item_val bt' o ≡ item_val bt o

suc_not_zero : (n : ℕ) → (n + 1 == 0) ≡ false
suc_not_zero n = ground arith

module _ (bt : BtBlock) (key : Key) (val : List ℕ) (parent : Option (Place ℕ))
    (cmp : Ordering) where
  abbrev off : ℕ
  off = item_off bt.nr_items

  abbrev new_items : ℕ → BtItem
  new_items o = if o == off then record (bt.items off) { key = key } else bt.items o

  -- the block once the item has its key and stands in the hash table
  abbrev keyed : Buckets → BtBlock
  keyed b = record bt {
    items = new_items;
    item_root = avl_insert parent off cmp;
    nr_items = add16 bt.nr_items 1;
    mid_free_len = sub16 bt.mid_free_len item_size;
    buckets = b;
  }

  abbrev finished : ℕ → BtBlock → BtBlock
  finished vo bt3 =
      let item : BtItem = record { key = key; val_off = vo; val_len = length val } in
      record (set_item bt3 off item) {
        total_item_bytes = add16 bt.total_item_bytes (item_bytes item);
      }

  create_item_run :
      (b : Buckets) (vo : ℕ) (bt3 : BtBlock)
      → item_len_bytes (length val) ≤ bt.mid_free_len
      → end_item (record bt {
        nr_items = add16 bt.nr_items 1;
        mid_free_len = sub16 bt.mid_free_len item_size;
      })
        ≡ done off
      → leaf_item_hash_insert bt.level bt.buckets key off ≡ done b
      → insert_value (keyed b) off val ≡ done (vo, bt3)
      → create_item bt key val parent cmp ≡ done (finished vo bt3)
  unfolding create_item
  create_item_run b vo bt3 room g e f =
      let small : ltb bt.mid_free_len (item_len_bytes (length val)) ≡ false =
        ground (arith, room) in
      rw (create_item, small, g, e, f) refl

  module _ (h : IsLeaf bt) (room : item_len_bytes (length val) ≤ bt.mid_free_len) where
    counts :
        (add16 bt.nr_items 1 ≡ bt.nr_items + 1)
        × (sub16 bt.mid_free_len item_size + 38 ≡ bt.mid_free_len)
        × (val_bytes (length val) ≤ sub16 bt.mid_free_len item_size)
        × (sub16 bt.mid_free_len item_size < 2 ^ 16)
    unfolding add16 sub16 item_len_bytes
    counts = let s = IsLeaf-short bt h in ground (arith, s, room)

    ended :
        end_item (record bt {
          nr_items = add16 bt.nr_items 1;
          mid_free_len = sub16 bt.mid_free_len item_size;
        })
        ≡ done off
    unfolding end_item
    ended =
        subst (λ n. (if n == 0 then bug else done (item_off (n - 1))) ≡ done off) (sym counts.0)
          (rw (suc_not_zero bt.nr_items) (ap (λ n. done (item_off n)) (omega arith)))

    fresh : Has bt.buckets off → ⊥
    fresh a = let l = (h.has off (omega arith)).0 a in omega (arith, Live-bound bt.nr_items off l)

    other : (o : ℕ) → Live bt.nr_items o → o ≢ off
    other o l e = omega (arith, Live-bound bt.nr_items o l, e)

    old_item : (o : ℕ) → Live bt.nr_items o → new_items o ≡ bt.items o
    old_item o l = if_other _ _ o off (other o l)

    new_key : (new_items off).key ≡ key
    new_key = ap (λ (x : BtItem). x.key) (if_same _ _ off)

    abbrev new_keys : ℕ → Key
    new_keys o = (new_items o).key

    hashed :
        (b : Buckets) × (leaf_item_hash_insert bt.level bt.buckets key off ≡ done b)
        × Inserts new_keys bt.buckets off b
    hashed =
        let table =
          IsTable_agree (item_keys bt) new_keys bt.buckets
            (λ o n a. ap (λ (x : BtItem). x.key) (sym (old_item o ((h.has o n).0 a)))) h.table in
        let (b, e, i) =
          leaf_item_hash_insert-Inserts new_keys bt.buckets off table (omega arith) fresh
            (omega (arith, h.loaded, IsLeaf-short bt h)) in
        (
          b,
          subst (λ l. leaf_item_hash_insert l bt.buckets key off ≡ done b) (sym h.leaf)
              (subst (λ k. leaf_item_hash_insert 0 bt.buckets k off ≡ done b) new_key e),
          i,
        )

    mid' : mid_free_end bt ≡ item_off (add16 bt.nr_items 1) + sub16 bt.mid_free_len item_size
    mid' = omega (arith, counts.0, counts.1)

    layout-keyed : (b : Buckets) → HasLayout (Live bt.nr_items) (keyed b)
    layout-keyed b =
        subst
          (λ m.
            IsLayout (Live bt.nr_items) new_items m (val_end bt.level) bt.last_free_off
              bt.last_free_len)
          mid'
          (IsLayout-move (Live bt.nr_items) (Live bt.nr_items) bt.items new_items (mid_free_end bt)
            (val_end bt.level) bt.last_free_off bt.last_free_len (λ o. o) (λ o l. (l, old_item o l))
            (λ o p l m n. n) h.layout)

    module _ (b : Buckets) (vo : ℕ) (bt3 : BtBlock) (i : Inserts new_keys bt.buckets off b)
        (s : Stores (Live bt.nr_items) (keyed b) off key val vo bt3) where
      abbrev fin : BtBlock
      fin = finished vo bt3

      more : bt3.nr_items ≡ bt.nr_items + 1
      more = s.nr_items ∙ counts.0

      final_new : fin.items off ≡ record { key = key; val_off = vo; val_len = length val }
      final_new = if_same _ _ off

      final_other : (o : ℕ) → o ≢ off → fin.items o ≡ new_items o
      final_other o n = if_other _ _ o off n ∙ ap (λ f. f o) s.items

      final_keys : (o : ℕ) → new_keys o ≡ item_keys fin o
      final_keys o = elim (Bool-cases (o == off)) [
        | inl e ↦
            let at = (==_iff o off).0 e in
            subst (λ x. new_keys x ≡ item_keys fin x) (sym at)
              (new_key ∙ ap (λ (x : BtItem). x.key) (sym final_new))
        | inr e ↦ ap (λ (x : BtItem). x.key) (sym (final_other o (ground (arith, e))))
      ]

      final_items : (o : ℕ) → fin.items o ≡ valued new_items off key vo (length val) o
      final_items o =
          let new : BtItem = record { key = key; val_off = vo; val_len = length val } in
          ap (λ x. if o == off then new else x) (ap (λ f. f o) s.items)

      final_live : (o : ℕ) → Live bt3.nr_items o → With (Live bt.nr_items) off o
      final_live o l = elim (Live_suc bt.nr_items o (subst (λ n. Live n o) more l)) [
        | inl k ↦ inl (k, other o k)
        | inr e ↦ inr e
      ]

      final-Has : (x : ℕ) → x ≢ 0 → Has bt3.buckets x ↔ Live bt3.nr_items x
      final-Has x n =
          subst (λ c. Has c x ↔ Live bt3.nr_items x) (sym s.buckets)
            (subst (λ k. Has b x ↔ Live k x) (sym more)
              (
                λ a. elim ((i.has x n).0 a) [
                  | inl e ↦ (bt.nr_items, omega arith, e)
                  | inr m ↦ Live_more bt.nr_items x ((h.has x n).0 m)
                ],
                λ l. (i.has x n).1 (elim (Live_suc bt.nr_items x l) [
                  | inl k ↦ inr ((h.has x n).1 k)
                  | inr e ↦ inl e
                ]),
              ))

      final_layout : HasLayout (Live bt3.nr_items) fin
      final_layout =
          IsLayout-move (With (Live bt.nr_items) off) (Live bt3.nr_items)
            (valued new_items off key vo (length val)) fin.items (mid_free_end bt3)
            (val_end bt3.level) bt3.last_free_off bt3.last_free_len (λ o. o)
            (λ o l. (final_live o l, final_items o)) (λ o p l m n. n) s.layout

      created : Creates bt key val (avl_insert parent off cmp) (finished vo bt3)
      created = record {
        leaf = record {
          leaf = s.level ∙ h.leaf;
          table =
              subst (IsTable (item_keys fin)) (sym s.buckets)
                (IsTable_agree new_keys (item_keys fin) b (λ o _ _. final_keys o) i.table);
          has = final-Has;
          loaded = omega (arith, ap load s.buckets, i.loaded, h.loaded, more);
          layout = final_layout;
          short = s.short;
        };
        nr_items = more;
        item_root = s.item_root;
        key = ap (λ (x : BtItem). x.key) final_new;
        value =
            subst (λ (x : BtItem). read_bytes x.val_len bt3.bytes x.val_off ≡ val) (sym final_new)
              s.value;
        keys = λ o l. sym (final_keys o) ∙ ap (λ (x : BtItem). x.key) (old_item o l);
        values = λ o l.
            ap (λ (x : BtItem). read_bytes x.val_len bt3.bytes x.val_off)
              (if_other _ _ o off (other o l))
            ∙ s.values o l
            ∙ ap (λ (x : BtItem). read_bytes x.val_len bt.bytes x.val_off) (old_item o l);
      }

    -- In a leaf with room for an item in the middle of the block, create_item meets no BUG; the leaf
    -- is whole again with the item at the end of its array, which has the key and the value, and the
    -- other items' keys and values are what they were.
    pub create_item-Creates :
        (bt' : BtBlock) × (create_item bt key val parent cmp ≡ done bt')
        × Creates bt key val (avl_insert parent off cmp) bt'
    create_item-Creates =
        let (b, e, i) = hashed in
        let (vo, bt3, f, s) =
          insert_value-Stores (Live bt.nr_items) (keyed b) off key val (layout-keyed b)
            (subst (λ m. m ≤ val_end bt.level) mid' h.short) counts.2 counts.3 in
        (finished vo bt3, create_item_run b vo bt3 room ended e f, created b vo bt3 i s)
