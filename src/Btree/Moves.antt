-- ===== src/Btree/Moves.antt =====
-- The array and the hash table in delete_item: the item is gone, and the last one takes its place.
use scoutfs_kmod_dev.Btree.Hash.Load.{load}
use scoutfs_kmod_dev.Btree.Values.{read_bytes-own_owner, read_bytes-set_val_owner, val_bytes_two}
use scoutfs_kmod_dev.Btree.Hash.Change.{IsTable_agree, leaf_item_hash_change-Changes}
use scoutfs_kmod_dev.Key.{Key}
use scoutfs_kmod_dev.Btree.Hash.Table.{IsTable, Has}
use scoutfs_kmod_dev.Srch.{Memory}
use scoutfs_kmod_dev.Avl.{Avl}
use scoutfs_kmod_dev.Btree.NewValue.{if_same, if_other}
use scoutfs_kmod_dev.Btree.Hash.{Buckets, leaf_item_hash_change}
use scoutfs_kmod_dev.Btree.Leaf.{IsLeaf, Live, Live-bound, Live_before, Live_more, Live_pos}
use scoutfs_kmod_dev.Btree.{
  BtBlock, item_off, BtItem, Buckets, item_keys, Avl, Memory, sub16, set_val_owner, read_bytes,
  leaf_item_hash_change, Key, item_bytes, val_bytes, add16, item_size,
}
use scoutfs_kmod_dev.Base.{
  ℕ, if◌then◌else◌, ◌==◌, ◌≢◌, subst, ◌-◌, arith, ◌≡◌, ◌+◌, sym, Bool-cases, ◌∙◌, refl, inl, ap,
  ==_iff, inr, done, ◌↔◌,
}
use scoutfs_kmod_dev.Btree.Hash.Remove.{Removes}
use scoutfs_kmod_dev.Base.Rules.{if_rule}
use scoutfs_kmod_dev.Btree.Hash.Change.{Changes}

-- where the item at an offset was before the item at `off` was deleted
abbrev pub moved_from : BtBlock → ℕ → ℕ → ℕ
moved_from bt off o = if o == off then item_off (bt.nr_items - 1) else o

module _ (bt : BtBlock) (h : IsLeaf bt) (off : ℕ) (live : Live bt.nr_items off) where
  abbrev pub rest : ℕ
  rest = bt.nr_items - 1

  abbrev pub end : ℕ
  end = item_off rest

  pub counted : bt.nr_items ≡ rest + 1
  counted = omega (arith, live.1)

  pub live_before : (o : ℕ) → Live bt.nr_items o → o ≢ end → Live rest o
  live_before o l n = Live_before rest o (subst (λ k. Live k o) counted l) n

  pub live_more : (o : ℕ) → Live rest o → Live bt.nr_items o
  live_more o l = subst (λ k. Live k o) (sym counted) (Live_more rest o l)

  pub live_end : Live bt.nr_items end
  live_end = (rest, omega (arith, counted), refl)

  pub not_end : (o : ℕ) → Live rest o → o ≢ end
  not_end o l e = omega (arith, Live-bound rest o l, e)

  pub from_off : moved_from bt off off ≡ end
  from_off = if_same end off off

  pub from_other : (o : ℕ) → o ≢ off → moved_from bt off o ≡ o
  from_other o n = if_other end o o off n

  -- An item that is left was in the array, and was not the one that is deleted.
  pub from_live :
      (o : ℕ) → Live rest o → Live bt.nr_items (moved_from bt off o) × (moved_from bt off o ≢ off)
  from_live o l = elim (Bool-cases (o == off)) [
    | inl e ↦
        let at = (==_iff o off).0 e in
        subst (λ x. Live bt.nr_items x × (x ≢ off)) (sym (ap (moved_from bt off) at ∙ from_off))
          (live_end, λ f. not_end o l (at ∙ sym f))
    | inr e ↦
        let n : o ≢ off = ground (arith, e) in
        subst (λ x. Live bt.nr_items x × (x ≢ off)) (sym (from_other o n)) (live_more o l, n)
  ]

  pub from_apart :
      (o p : ℕ) → Live rest o → Live rest p → o ≢ p → moved_from bt off o ≢ moved_from bt off p
  from_apart o p l m n f = ground (arith, f, n, not_end o l, not_end p m)

  -- where an item that is left goes
  pub used_after :
      (u : ℕ)
      → Live bt.nr_items u
      → u ≢ off
      → let v = if u == item_off (bt.nr_items - 1) then off else u in
        (Live (rest) v × (moved_from bt off v ≡ u))
  used_after u l n =
      if_rule (λ v. Live (rest) v × (moved_from bt off v ≡ u)) (u == item_off (bt.nr_items - 1)) _ _
        (λ e.
          let at = (==_iff u _).0 e in
          (live_before off live (λ f. n (at ∙ sym f)), from_off ∙ sym at))
        (λ e. (live_before u l (ground (arith, e)), from_other u n))

  -- delete_item before it deletes the value
  abbrev pub moved : (ℕ → BtItem) → Avl ℕ → Buckets → Memory → BtBlock
  moved items root b bytes = record bt {
    items = items;
    item_root = root;
    nr_items = sub16 bt.nr_items 1;
    total_item_bytes = sub16 bt.total_item_bytes (item_bytes (bt.items off));
    mid_free_len = add16 bt.mid_free_len item_size;
    buckets = b;
    bytes = bytes;
  }

  pub record Moves (items : ℕ → BtItem) (b : Buckets) (bytes : Memory) : Type 0 where
    pub table : IsTable (λ o. (items o).key) b
    pub has : (x : ℕ) → x ≢ 0 → Has b x ↔ Live rest x
    pub loaded : load b + 1 ≡ bt.nr_items
    pub same : (o : ℕ) → Live rest o → items o ≡ bt.items (moved_from bt off o)
    pub reads :
        (o : ℕ)
        → Live bt.nr_items o
        → let x = bt.items o in
          (read_bytes x.val_len bytes x.val_off ≡ read_bytes x.val_len bt.bytes x.val_off)

  module _ (b : Buckets) (r : Removes (item_keys bt) bt.buckets off b) where
    -- the deleted item was the last one
    pub last-Moves : end ≡ off → Moves bt.items b bt.bytes
    last-Moves e = record {
      table = r.table;
      has = λ x n. (
        λ a. let (m, d) = (r.has x n).0 a in live_before x ((h.has x n).0 m) (λ f. d (f ∙ e)),
        λ l. (r.has x n).1 ((h.has x n).1 (live_more x l), λ f. not_end x l (f ∙ sym e)),
      );
      loaded = r.loaded ∙ h.loaded;
      same = λ o l. ap bt.items (sym (from_other o (λ f. not_end o l (f ∙ sym e))));
      reads = λ o l. refl;
    }

    module _ (n : end ≢ off) where
      abbrev pub new_items : ℕ → BtItem
      new_items o = if o == off then bt.items end else bt.items o

      abbrev new_keys : ℕ → Key
      new_keys o = (new_items o).key

      key_same : (x y : ℕ) → new_items x ≡ bt.items y → new_keys x ≡ item_keys bt y
      key_same x y e = ap (λ (i : BtItem). i.key) e

      still : (x : ℕ) → x ≢ off → new_items x ≡ bt.items x
      still x d = if_other _ _ x off d

      new_table : IsTable new_keys b
      new_table =
          IsTable_agree (item_keys bt) new_keys b
            (λ o m a. sym (key_same o o (still o ((r.has o m).0 a).1))) r.table

      pub changed :
          (b2 : Buckets) × (leaf_item_hash_change bt.level b (item_keys bt end) off end ≡ done b2)
          × Changes new_keys b off end b2
      changed =
          let pos = Live_pos bt.nr_items off live in
          let at_end = key_same end end (still end n) in
          let (b2, e, c) =
            leaf_item_hash_change-Changes new_keys b off end new_table pos (omega arith)
              (λ a. ((r.has off pos).0 a).1 refl)
              ((r.has end (omega arith)).1 ((h.has end (omega arith)).1 live_end, n))
              (key_same off end (if_same _ _ off) ∙ sym at_end) in
          (
            b2,
            subst (λ l. leaf_item_hash_change l b (item_keys bt end) off end ≡ done b2) (sym h.leaf)
                (subst (λ k. leaf_item_hash_change 0 b k off end ≡ done b2) at_end e),
            c,
          )

      abbrev pub new_bytes : Memory
      new_bytes =
          let last = bt.items end in
          if last.val_len == 0
          then bt.bytes
          else set_val_owner bt.bytes last.val_off (val_bytes last.val_len) off

      new_reads :
          (o : ℕ)
          → Live bt.nr_items o
          → let x = bt.items o in
            (read_bytes x.val_len new_bytes x.val_off ≡ read_bytes x.val_len bt.bytes x.val_off)
      new_reads o l =
          let x = bt.items o in
          let last = bt.items end in
          if_rule (λ m. read_bytes x.val_len m x.val_off ≡ read_bytes x.val_len bt.bytes x.val_off)
            (last.val_len == 0) _ _ (λ _. refl)
            (λ z.
              let some : last.val_len ≢ 0 = ground (arith, z) in
              elim (Bool-cases (o == end)) [
                | inl e ↦
                    let at = (==_iff o end).0 e in
                    let new = set_val_owner bt.bytes last.val_off (val_bytes last.val_len) off in
                    subst
                      (λ y.
                        let x = bt.items y in
                        (read_bytes x.val_len new x.val_off
                          ≡ read_bytes x.val_len bt.bytes x.val_off))
                      (sym at) (read_bytes-own_owner last bt.bytes off some)
                | inr e ↦
                    read_bytes-set_val_owner x bt.bytes last.val_off (val_bytes last.val_len) off
                      (val_bytes_two last.val_len some)
                      (h.layout.apart o end l live_end (ground (arith, e)) some)
              ])

      pub end-Moves : (b2 : Buckets) → Changes new_keys b off end b2 → Moves new_items b2 new_bytes
      end-Moves b2 c = record {
        table = c.table;
        has = λ x m. (
          λ a. elim ((c.has x m).0 a) [
            | inl e ↦ subst (Live rest) (sym e) (live_before off live (λ f. n (sym f)))
            | inr (k, d) ↦ live_before x ((h.has x m).0 ((r.has x m).0 k).0) d
          ],
          λ l. (c.has x m).1 (elim (Bool-cases (x == off)) [
            | inl e ↦ inl ((==_iff x off).0 e)
            | inr e ↦
                inr ((r.has x m).1 ((h.has x m).1 (live_more x l), ground (arith, e)), not_end x l)
          ]),
        );
        loaded = ap (λ k. k + 1) c.loaded ∙ r.loaded ∙ h.loaded;
        same = λ o l. elim (Bool-cases (o == off)) [
          | inl e ↦
              let at = (==_iff o off).0 e in
              subst (λ y. new_items y ≡ bt.items (moved_from bt off y)) (sym at)
                (if_same _ _ off ∙ ap bt.items (sym from_off))
          | inr e ↦
              let d : o ≢ off = ground (arith, e) in still o d ∙ ap bt.items (sym (from_other o d))
        ];
        reads = new_reads;
      }
