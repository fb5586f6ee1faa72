-- ===== src/Btree/Insert.antt =====
-- scoutfs_btree_insert at a leaf.
use scoutfs_kmod_dev.Btree.Grow.{search-insert-IsIndex}
use scoutfs_kmod_dev.Btree.Index.{IsIndex}
use scoutfs_kmod_dev.Btree.Leaf.{Live, Live_suc, Live_more, IsLeaf-short}
use scoutfs_kmod_dev.Btree.Create.{Creates, create_item-Creates}
use scoutfs_kmod_dev.Avl.{SearchResult, Avl, avl_insert}
use scoutfs_kmod_dev.Key.Order.{IsKey, rank, key_compare-rank}
use scoutfs_kmod_dev.Key.{Key, key_compare}
use scoutfs_kmod_dev.Btree.Block.{IsBlock, Maps, Lacks, ranks, hash_search-cases, rank-eq}
use scoutfs_kmod_dev.Btree.{
  BtBlock, Key, mid_free_item_room, item_off, item_len_bytes, SearchResult, search_item, item_keys,
  key_compare, item_val, create_item,
}
use scoutfs_kmod_dev.Base.{
  bug, ℕ, List, ◌↔◌, ◌≡◌, ◌⊎◌, true, Kernel, ◌≤◌, ok, Ret, arith, ltb, false, subst, none, inl, sym,
  ◌≢◌, done, compare, ap, refl, ◌+◌, err, inr, ◌∙◌, eexist,
}
use scoutfs_kmod_dev.Base.Lists.{length}
use scoutfs_kmod_dev.Btree.Ops.{scoutfs_btree_insert, max_val_len, create_new}

-- The block's map is that of another, with a key more.
pub record Puts (bt : BtBlock) (key : Key) (val : List ℕ) (bt' : BtBlock) : Type 0 where
  pub block : IsBlock bt'
  pub maps : (k : Key) (v : List ℕ) → Maps bt' k v ↔ (Maps bt k v ⊎ ((k ≡ key) × (v ≡ val)))

pub create_new_run :
    (bt : BtBlock) (key : Key) (val : List ℕ) (q : SearchResult ℕ) (bt' : BtBlock)
    → create_item bt key val q.par q.cmp ≡ done bt'
    → create_new bt key val q ≡ done (ok, bt')
create_new_run bt key val q bt' e = ap (λ r. elim r [ bug ↦ bug | done b ↦ done (ok, b) ]) e

module _ (bt : BtBlock) (h : IsBlock bt) (key : Key) (val : List ℕ) (fits : IsKey key)
    (room : mid_free_item_room bt (length val) ≡ true) where
  abbrev off : ℕ
  off = item_off bt.nr_items

  enough : item_len_bytes (length val) ≤ bt.mid_free_len
  unfolding mid_free_item_room
  enough = ground (arith, room)

  module _ (absent : Lacks bt key) (root : Avl ℕ) (bt' : BtBlock)
      (c : Creates bt key val root bt') where
    old_key : (o : ℕ) → Live bt.nr_items o → ranks bt' o ≡ ranks bt o
    old_key o l = ap rank (c.keys o l)

    new_key : ranks bt' off ≡ rank key
    new_key = ap rank c.key

    differs : (o : ℕ) → Live bt.nr_items o → ranks bt' o ≢ ranks bt' off
    differs o l e = absent o l (rank-eq _ _ (h.fits o l) fits (sym (old_key o l) ∙ e ∙ new_key))

    found_order :
        (o : ℕ)
        → Live bt.nr_items o
        → key_compare key (item_keys bt o) ≡ compare (ranks bt' off) (ranks bt' o)
    found_order o l =
        key_compare-rank key (item_keys bt o) fits (h.fits o l)
        ∙ ap (λ n. compare n (ranks bt o)) (sym new_key)
        ∙ ap (λ n. compare (ranks bt' off) n) (sym (old_key o l))

    indexed :
        ((search_item bt key).found ≡ none)
        × IsIndex
            (ranks bt')
            (bt.nr_items + 1)
            (avl_insert (search_item bt key).par off (search_item bt key).cmp)
    indexed =
        let leaf = h.leaf in
        search-insert-IsIndex (ranks bt) (ranks bt') bt.nr_items bt.item_root h.index
          (omega (arith, IsLeaf-short bt h.leaf)) old_key differs
          (λ o. key_compare key (item_keys bt o)) found_order

    live' : (o : ℕ) → Live bt'.nr_items o → Live bt.nr_items o ⊎ (o ≡ off)
    live' o l = Live_suc bt.nr_items o (subst (λ n. Live n o) c.nr_items l)

    live_new : Live bt'.nr_items off
    live_new = subst (λ n. Live n off) (sym c.nr_items) (bt.nr_items, omega arith, refl)

    live_old : (o : ℕ) → Live bt.nr_items o → Live bt'.nr_items o
    live_old o l = subst (λ n. Live n o) (sym c.nr_items) (Live_more bt.nr_items o l)

    created-Puts :
        root ≡ avl_insert (search_item bt key).par off (search_item bt key).cmp
        → Puts bt key val bt'
    created-Puts e = record {
      block = record {
        leaf = c.leaf;
        fits = λ o l. elim (live' o l) [
          | inl k ↦ subst IsKey (sym (c.keys o k)) (h.fits o k)
          | inr f ↦ subst IsKey (sym (ap (item_keys bt') f ∙ c.key)) fits
        ];
        index =
            subst (λ t. IsIndex (ranks bt') bt'.nr_items t) (sym (c.item_root ∙ e))
              (subst
                (λ n.
                  IsIndex (ranks bt') n
                    (avl_insert (search_item bt key).par off (search_item bt key).cmp))
                (sym c.nr_items) indexed.1);
      };
      maps = λ k v. (
        λ (o, l, a, b). elim (live' o l) [
          | inl j ↦ inl (o, j, sym (c.keys o j) ∙ a, sym (c.values o j) ∙ b)
          | inr f ↦
              inr (sym a ∙ ap (item_keys bt') f ∙ c.key, sym b ∙ ap (item_val bt') f ∙ c.value)
        ],
        λ m. elim m [
          | inl (o, l, a, b) ↦ (o, live_old o l, c.keys o l ∙ a, c.values o l ∙ b)
          | inr (a, b) ↦ (off, live_new, c.key ∙ sym a, c.value ∙ sym b)
        ],
      );
    }

  -- the item is created where the search ended
  pub created_item :
      Lacks bt key
      → (bt' : BtBlock) × (create_item bt key val (search_item bt key).par (search_item bt key).cmp
          ≡ done bt')
        × ((search_item bt key).found ≡ none)
        × Puts bt key val bt'
  created_item absent =
      let q = search_item bt key in
      let (bt', run, c) = create_item-Creates bt key val q.par q.cmp h.leaf enough in
      (bt', run, (indexed absent _ bt' c).0, created-Puts absent _ bt' c refl)

  pub create_new-Puts :
      Lacks bt key
      → (bt' : BtBlock) × (create_new bt key val (search_item bt key) ≡ done (ok, bt'))
        × ((search_item bt key).found ≡ none)
        × Puts bt key val bt'
  create_new-Puts absent =
      let (bt', run, found, p) = created_item absent in
      (bt', create_new_run bt key val (search_item bt key) bt' run, found, p)

  -- what scoutfs_btree_insert does of a key that the leaf has, and of one that it lacks
  abbrev pub Inserted : Kernel (Ret × BtBlock) → Type 0
  Inserted r =
      (((o : ℕ) × Live bt.nr_items o × (item_keys bt o ≡ key)) × (r ≡ done (err eexist, bt)))
      ⊎ (Lacks bt key × (bt' : BtBlock) × (r ≡ done (ok, bt')) × Puts bt key val bt')

  -- At a whole leaf whose middle has room for the item, with a key whose fields fit their types and
  -- a value that is not too long, scoutfs_btree_insert returns EEXIST and changes nothing where an
  -- item has the key; otherwise it meets no BUG and returns 0, and the leaf is whole again, with
  -- the key and the value besides the others.
  pub scoutfs_btree_insert-Inserted :
      length val ≤ max_val_len → Inserted (scoutfs_btree_insert ok bt key val)
  unfolding scoutfs_btree_insert
  scoutfs_btree_insert-Inserted short =
      let valid : ltb max_val_len (length val) ≡ false = ground (arith, short) in
      elim (hash_search-cases bt h key) [
        | inr (o, r, l, e) ↦ inl ((o, l, e), rw (valid, r) refl)
        | inl (r, absent) ↦
            let (bt', run, found, p) = create_new-Puts absent in
            inr (absent, bt', rw (valid, r, found) run, p)
      ]
