-- ===== src/Btree/Replace.antt =====
-- update_item_value in a leaf.
use scoutfs_kmod_dev.Btree.Hash.Load.{load}
use scoutfs_kmod_dev.Btree.Hash.Change.{IsTable_agree}
use scoutfs_kmod_dev.Btree.Hash.Table.{IsTable, Has}
use scoutfs_kmod_dev.Btree.Layout.{IsLayout-move}
use scoutfs_kmod_dev.Btree.NewValue.{Stores, With, valued, insert_value-Stores, if_same, if_other}
use scoutfs_kmod_dev.Btree.Values.{Frees, delete_value-Frees, val_end}
use scoutfs_kmod_dev.Btree.Leaf.{IsLeaf, Live}
use scoutfs_kmod_dev.Btree.{
  insert_value, BtBlock, item_keys, val_bytes, item_val, add16, BtItem, delete_value, set_item,
  sub16, mid_free_end, read_bytes,
}
use scoutfs_kmod_dev.Base.{
  ℕ, done, List, ◌≡◌, ◌≤◌, ◌≢◌, ◌<◌, Bool-cases, ◌∙◌, ◌^◌, arith, ap, subst, ◌==◌, inl,
  if◌then◌else◌, inr, ==_iff, sym, refl, ◌↔◌,
}
use scoutfs_kmod_dev.Base.Lists.{length}
use scoutfs_kmod_dev.Btree.Ops.{update_item_value}

-- The leaf with another value for the item at `off`.
pub record Replaces (bt : BtBlock) (off : ℕ) (val : List ℕ) (bt' : BtBlock) : Type 0 where
  pub leaf : IsLeaf bt'
  pub nr_items : bt'.nr_items ≡ bt.nr_items
  pub item_root : bt'.item_root ≡ bt.item_root
  pub keys : (o : ℕ) → item_keys bt' o ≡ item_keys bt o
  pub value : item_val bt' off ≡ val
  pub values : (o : ℕ) → Live bt.nr_items o → o ≢ off → item_val bt' o ≡ item_val bt o

module _ (bt : BtBlock) (h : IsLeaf bt) (off : ℕ) (live : Live bt.nr_items off) (val : List ℕ)
    (room : val_bytes (length val) ≤ bt.mid_free_len) where
  abbrev item : BtItem
  item = bt.items off

  abbrev Others : ℕ → Type 0
  Others o = Live bt.nr_items o × (o ≢ off)

  abbrev counted : BtBlock
  counted = record bt {
    total_item_bytes =
        add16 bt.total_item_bytes (sub16 (val_bytes (length val)) (val_bytes item.val_len));
  }

  abbrev emptied : BtBlock
  emptied = delete_value counted item.val_off item.val_len

  freed : Frees Others counted emptied
  freed =
      delete_value-Frees Others counted item.val_off item.val_len
        (IsLayout-move (Live bt.nr_items) Others bt.items bt.items (mid_free_end bt)
          (val_end bt.level) bt.last_free_off bt.last_free_len (λ o. o) (λ o l. (l.0, refl))
          (λ o p l m n. n) h.layout)
        h.short
        (λ n.
          let (a, b) = h.layout.inside off live n in
          record { from_mid = a; to_end = b; away = λ o l. h.layout.apart o off l.0 live l.1 n })
        (λ n z. (h.layout.last z).1.away off live n)

  abbrev final : ℕ → BtBlock → BtBlock
  final vo bt3 = set_item bt3 off (record item { val_off = vo; val_len = length val })

  module _ (vo : ℕ) (bt3 : BtBlock) (s : Stores Others emptied off item.key val vo bt3) where
    same_items : bt3.items ≡ bt.items
    same_items = s.items ∙ freed.items

    same_buckets : bt3.buckets ≡ bt.buckets
    same_buckets = s.buckets ∙ freed.buckets

    same_count : bt3.nr_items ≡ bt.nr_items
    same_count = s.nr_items ∙ freed.nr_items

    final_keys : (o : ℕ) → item_keys (final vo bt3) o ≡ item_keys bt o
    final_keys o = elim (Bool-cases (o == off)) [
      | inl e ↦
          let at = (==_iff o off).0 e in
          subst (λ x. item_keys (final vo bt3) x ≡ item_keys bt x) (sym at)
            (ap (λ (x : BtItem). x.key) (if_same _ _ off))
      | inr e ↦
          ap (λ (x : BtItem). x.key)
            (if_other _ _ o off (ground (arith, e)) ∙ ap (λ f. f o) same_items)
    ]

    final_items :
        (o : ℕ) → (final vo bt3).items o ≡ valued emptied.items off item.key vo (length val) o
    final_items o =
        let new : BtItem = record { key = item.key; val_off = vo; val_len = length val } in
        ap (λ x. if o == off then new else x) (ap (λ f. f o) s.items)

    others : (o : ℕ) → Live bt3.nr_items o → With Others off o
    others o l = elim (Bool-cases (o == off)) [
      | inl e ↦ inr ((==_iff o off).0 e)
      | inr e ↦
          let n : o ≢ off = ground (arith, e) in inl ((subst (λ k. Live k o) same_count l, n), n)
    ]

    final-IsLeaf : IsLeaf (final vo bt3)
    final-IsLeaf = record {
      leaf = s.level ∙ freed.level ∙ h.leaf;
      table = subst (IsTable (item_keys (final vo bt3))) (sym same_buckets) (
          IsTable_agree (item_keys bt) (item_keys (final vo bt3)) bt.buckets
            (λ o _ _. sym (final_keys o)) h.table);
      has = λ x n.
          subst (λ b. Has b x ↔ Live bt3.nr_items x) (sym same_buckets)
            (subst (λ k. Has bt.buckets x ↔ Live k x) (sym same_count) (h.has x n));
      loaded = ap load same_buckets ∙ h.loaded ∙ sym same_count;
      layout =
          IsLayout-move (With Others off) (Live bt3.nr_items)
            (valued emptied.items off item.key vo (length val)) (final vo bt3).items
            (mid_free_end bt3) (val_end bt3.level) bt3.last_free_off bt3.last_free_len (λ o. o)
            (λ o l. (others o l, final_items o)) (λ o p l m n. n) s.layout;
      short = s.short;
    }

    final-Replaces : Replaces bt off val (final vo bt3)
    final-Replaces = record {
      leaf = final-IsLeaf;
      nr_items = same_count;
      item_root = s.item_root ∙ freed.item_root;
      keys = final_keys;
      value =
          subst (λ (x : BtItem). read_bytes x.val_len bt3.bytes x.val_off ≡ val)
            (sym (if_same _ _ off)) s.value;
      values = λ o l n.
          ap (λ (x : BtItem). read_bytes x.val_len bt3.bytes x.val_off) (if_other _ _ o off n)
          ∙ s.values o (l, n)
          ∙ freed.values o (l, n);
    }

  update_item_value_run :
      (vo : ℕ) (bt3 : BtBlock)
      → insert_value emptied off val ≡ done (vo, bt3)
      → update_item_value bt off val ≡ done (final vo bt3)
  unfolding update_item_value
  update_item_value_run vo bt3 e = rw (update_item_value, e) refl

  -- Where the middle of a leaf that is whole has room for a value, update_item_value meets no BUG;
  -- the leaf is whole again, and the item has the value, and no other item's key or value is
  -- changed.
  pub update_item_value-Replaces :
      (bt' : BtBlock) × (update_item_value bt off val ≡ done bt') × Replaces bt off val bt'
  update_item_value-Replaces =
      let fits : emptied.mid_free_len < 2 ^ 16 =
        omega (
          arith,
          subst (λ l. mid_free_end emptied ≤ val_end l) (freed.level ∙ h.leaf) freed.short,
        ) in
      let (vo, bt3, run, s) =
        insert_value-Stores Others emptied off item.key val freed.layout freed.short
          (omega (arith, freed.room, room)) fits in
      (final vo bt3, update_item_value_run vo bt3 run, final-Replaces vo bt3 s)
