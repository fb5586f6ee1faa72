-- ===== src/Btree/Remove.antt =====
-- delete_item in a leaf.
use scoutfs_kmod_dev.Btree.Hash.Load.{load}
use scoutfs_kmod_dev.Btree.Hash.Table.{IsTable, Has}
use scoutfs_kmod_dev.Btree.Layout.{IsRange, IsLayout, Away, IsLayout-move}
use scoutfs_kmod_dev.Btree.Values.{HasLayout, Frees, delete_value-Frees, val_end}
use scoutfs_kmod_dev.Srch.{Memory}
use scoutfs_kmod_dev.Btree.Moves.{
  used_after, moved_from, Moves, moved, counted, rest, from_live, from_apart, last-Moves, end-Moves,
  changed,
}
use scoutfs_kmod_dev.Btree.Hash.{Buckets, leaf_item_hash_delete, hash_nr}
use scoutfs_kmod_dev.Btree.Leaf.{IsLeaf, Live, IsLeaf-short, Live_pos}
use scoutfs_kmod_dev.Avl.{Avl}
use scoutfs_kmod_dev.Btree.{
  BtBlock, Avl, item_off, add16, sub16, BtItem, item_size, Buckets, item_keys, Memory, mid_free_end,
  item_val, delete_node, relocate_node, delete_value, val_bytes, delete_item, leaf_item_hash_delete,
  end_item, hash_nr, read_bytes, move_end,
}
use scoutfs_kmod_dev.Base.{
  ℕ, Option, none, ◌+◌, ◌-◌, ◌≡◌, if◌then◌else◌, ◌==◌, arith, ◌≢◌, some, subst, sym, ◌≤◌, ==_iff,
  ◌∙◌, ap, done, false, Bool-cases, true, refl, ◌↔◌, inl, inr,
}
use scoutfs_kmod_dev.Btree.Hash.Remove.{Removes, leaf_item_hash_delete-Removes}

-- The item's node leaves the tree, and the node of the last item is another one's then.
abbrev pub root_without : BtBlock → ℕ → Avl ℕ
root_without bt off =
    let end = item_off (bt.nr_items - 1) in
    if end == off
    then delete_node bt.item_root off
    else relocate_node (delete_node bt.item_root off) off end

-- the item that a caller goes on to use
abbrev pub after_use : BtBlock → ℕ → Option ℕ → Option ℕ
after_use bt off use_after = elim use_after [
  | none ↦ none
  | some u ↦ some (if u == item_off (bt.nr_items - 1) then off else u)
]

-- The leaf without the item at `off`: each of the items that are left has the key and the value of
-- the item that it was, and `after` is the item that `use_after` was.
pub record Deletes (bt : BtBlock) (off : ℕ) (use_after : Option ℕ) (bt' : BtBlock)
    (after : Option ℕ) : Type 0 where
  pub leaf : IsLeaf bt'
  pub nr_items : bt'.nr_items + 1 ≡ bt.nr_items
  pub item_root : bt'.item_root ≡ root_without bt off
  pub keys : (o : ℕ) → Live bt'.nr_items o → item_keys bt' o ≡ item_keys bt (moved_from bt off o)
  pub values : (o : ℕ) → Live bt'.nr_items o → item_val bt' o ≡ item_val bt (moved_from bt off o)
  pub used :
      (u : ℕ)
      → use_after ≡ some u
      → Live bt.nr_items u
      → u ≢ off
      → (v : ℕ) × (after ≡ some v) × Live bt'.nr_items v × (moved_from bt off v ≡ u)

module _ (bt : BtBlock) (h : IsLeaf bt) (off : ℕ) (live : Live bt.nr_items off) where
  less : sub16 bt.nr_items 1 ≡ rest bt h off live
  unfolding sub16
  less = let s = IsLeaf-short bt h in ground (arith, s, counted bt h off live)

  mid_same : item_off (sub16 bt.nr_items 1) + add16 bt.mid_free_len item_size ≡ mid_free_end bt
  unfolding add16
  mid_same = let s = IsLeaf-short bt h in ground (arith, s, less, counted bt h off live)

  module _ (items : ℕ → BtItem) (root : Avl ℕ) (b : Buckets) (bytes : Memory)
      (m : Moves bt h off live items b bytes) where
    abbrev without : BtBlock
    without = moved bt h off live items root b bytes

    layout-moved : HasLayout (Live (rest bt h off live)) without
    layout-moved =
        subst
          (λ e.
            IsLayout (Live (rest bt h off live)) items e (val_end bt.level) bt.last_free_off
              bt.last_free_len)
          (sym mid_same)
          (IsLayout-move (Live bt.nr_items) (Live (rest bt h off live)) bt.items items
            (mid_free_end bt) (val_end bt.level) bt.last_free_off bt.last_free_len
            (moved_from bt off) (λ o l. ((from_live bt h off live o l).0, m.same o l))
            (from_apart bt h off live) h.layout)

    abbrev item : BtItem
    item = bt.items off

    range :
        item.val_len ≢ 0
        → IsRange
            (Live (rest bt h off live))
            items
            (mid_free_end without)
            (val_end bt.level)
            item.val_off
            (val_bytes item.val_len)
    range n =
        let (a, b) = h.layout.inside off live n in
        record {
          from_mid = omega (arith, a, mid_same);
          to_end = b;
          away = λ o l.
              let (k, d) = from_live bt h off live o l in
              subst (λ x. Away x item.val_off (val_bytes item.val_len)) (sym (m.same o l))
                (h.layout.apart (moved_from bt off o) off k live d n);
        }

    freed :
        Frees (Live (rest bt h off live)) without (delete_value without item.val_off item.val_len)
    freed =
        delete_value-Frees (Live (rest bt h off live)) without item.val_off item.val_len
          layout-moved (subst (λ e. e ≤ val_end bt.level) (sym mid_same) h.short) range
          (λ n z. (h.layout.last z).1.away off live n)

    abbrev result : BtBlock
    result = delete_value without item.val_off item.val_len

    fewer : result.nr_items ≡ rest bt h off live
    fewer = freed.nr_items ∙ less

    result-IsLeaf : IsLeaf result
    result-IsLeaf = record {
      leaf = freed.level ∙ h.leaf;
      table =
          subst (λ (i : ℕ → BtItem). IsTable (λ o. let x = i o in x.key) result.buckets)
            (sym freed.items)
            (subst (IsTable (λ o. let x = items o in x.key)) (sym freed.buckets) m.table);
      has = λ x n.
          subst (λ k. Has result.buckets x ↔ Live k x) (sym fewer)
            (subst (λ c. Has c x ↔ Live (rest bt h off live) x) (sym freed.buckets) (m.has x n));
      loaded = omega (arith, ap load freed.buckets, m.loaded, fewer, counted bt h off live);
      layout = subst (λ k. HasLayout (Live k) result) (sym fewer) freed.layout;
      short = freed.short;
    }

    result-Deletes :
        (use_after : Option ℕ)
        → root ≡ root_without bt off
        → Deletes bt off use_after result (after_use bt off use_after)
    result-Deletes use_after e = record {
      leaf = result-IsLeaf;
      nr_items = ap (λ n. n + 1) fewer ∙ sym (counted bt h off live);
      item_root = freed.item_root ∙ e;
      keys = λ o l.
          let l' = subst (λ n. Live n o) fewer l in
          ap (λ (x : BtItem). x.key) (ap (λ f. f o) freed.items ∙ m.same o l');
      values = λ o l.
          let l' = subst (λ n. Live n o) fewer l in
          freed.values o l'
          ∙ ap (λ (x : BtItem). read_bytes x.val_len bytes x.val_off) (m.same o l')
          ∙ m.reads (moved_from bt off o) (from_live bt h off live o l').0;
      used = λ u f l n.
          let (k, g) = used_after bt h off live u l n in
          let v : ℕ = if u == item_off (bt.nr_items - 1) then off else u in
          (v, ap (after_use bt off) f, subst (λ c. Live c v) (sym fewer) k, g);
    }

  abbrev DeletesIt : Option ℕ → Type 0
  DeletesIt use_after =
      (bt' : BtBlock) × (after : Option ℕ) × (delete_item bt off use_after
        ≡ some (done (bt', after)))
      × Deletes bt off use_after bt' after

  ended : end_item bt ≡ done (item_off (bt.nr_items - 1))
  unfolding end_item
  ended = let n : (bt.nr_items == 0) ≡ false = ground (arith, live.1) in rw n refl

  module _ (use_after : Option ℕ) (b : Buckets)
      (d : leaf_item_hash_delete (item_keys bt) hash_nr bt.level bt.buckets (item_keys bt off) off
        ≡ some (done b))
      (r : Removes (item_keys bt) bt.buckets off b) where
    delete-last : (item_off (bt.nr_items - 1) == off) ≡ true → DeletesIt use_after
    unfolding delete_item
    delete-last e =
        let m = last-Moves bt h off live b r ((==_iff _ _).0 e) in
        (
          _,
          _,
          rw (delete_item, ended, d, e) refl,
          result-Deletes bt.items (delete_node bt.item_root off) b bt.bytes m use_after (rw e refl),
        )

    delete-other : (item_off (bt.nr_items - 1) == off) ≡ false → DeletesIt use_after
    unfolding delete_item move_end
    delete-other e =
        let n : item_off (bt.nr_items - 1) ≢ off = ground (arith, e) in
        let (b2, f, c) = changed bt h off live b r n in
        let m = end-Moves bt h off live b r n b2 c in
        (
          _,
          _,
          rw (delete_item, ended, d, e, move_end, f) refl,
          result-Deletes _
              (relocate_node (delete_node bt.item_root off) off (item_off (bt.nr_items - 1))) b2 _ m
              use_after (rw e refl),
        )

  -- In a leaf that is whole, delete_item of one of its items ends and meets no BUG, and the leaf is
  -- whole again without the item.
  pub delete_item-Deletes : (use_after : Option ℕ) → DeletesIt use_after
  delete_item-Deletes use_after =
      let (b, d, r) =
        leaf_item_hash_delete-Removes (item_keys bt) bt.buckets off h.table
          (Live_pos bt.nr_items off live) ((h.has off (Live_pos bt.nr_items off live)).1 live)
          (omega (arith, h.loaded, IsLeaf-short bt h)) in
      let d' =
        subst
          (λ l.
            leaf_item_hash_delete (item_keys bt) hash_nr l bt.buckets (item_keys bt off) off
            ≡ some (done b))
          (sym h.leaf) d in
      elim (Bool-cases (item_off (bt.nr_items - 1) == off)) [
        | inl e ↦ delete-last use_after b d' r e
        | inr e ↦ delete-other use_after b d' r e
      ]
