-- ===== src/Btree/Update.antt =====
-- scoutfs_btree_update and scoutfs_btree_force at a leaf, and scoutfs_btree_lookup.
use scoutfs_kmod_dev.Btree.Sorts.{Sorted_agree}
use scoutfs_kmod_dev.Key.Order.{IsKey, rank}
use scoutfs_kmod_dev.Btree.Index.{IsIndex}
use scoutfs_kmod_dev.Btree.Leaf.{Live}
use scoutfs_kmod_dev.Key.{Key}
use scoutfs_kmod_dev.Btree.Block.{IsBlock, hash_search-cases, Lacks, Maps, ranks, IsBlock-unique}
use scoutfs_kmod_dev.Btree.{
  BtBlock, Key, item_keys, mid_free_item_room, item_len_bytes, item_val, val_bytes,
}
use scoutfs_kmod_dev.Base.{
  ℕ, done, ok, err, enoent, bug, Bool, List, Ret, subst, Option, sym, inl, ◌≡◌, ◌↔◌, ◌∙◌, ap, ◌≢◌,
  true, inr, none, Bool-cases, ◌≤◌, refl, ◌⊎◌, ◌==◌, ltb, ==_iff, Kernel, some, false, arith,
}
use scoutfs_kmod_dev.Base.Lists.{length}
use scoutfs_kmod_dev.Btree.Replace.{Replaces, update_item_value-Replaces}
use scoutfs_kmod_dev.Btree.Insert.{Puts, create_new-Puts}
use scoutfs_kmod_dev.Btree.Ops.{
  scoutfs_btree_lookup, scoutfs_btree_update, scoutfs_btree_force, max_val_len, update_found,
  update_item_value,
}
use scoutfs_kmod_dev.Avl.{items}

-- The block's map is that of another, where the key has the value.
pub record Sets (bt : BtBlock) (key : Key) (val : List ℕ) (bt' : BtBlock) : Type 0 where
  pub block : IsBlock bt'
  pub maps :
      (k : Key) (v : List ℕ) → Maps bt' k v ↔ ((Maps bt k v × (k ≢ key)) ⊎ ((k ≡ key) × (v ≡ val)))

pub Puts-Sets :
    (bt : BtBlock) (key : Key) (val : List ℕ) (bt' : BtBlock)
    → Lacks bt key
    → Puts bt key val bt'
    → Sets bt key val bt'
Puts-Sets bt key val bt' absent p = record {
  block = p.block;
  maps = λ k v. (
    λ m. elim ((p.maps k v).0 m) [
      | inl (o, l, a, b) ↦ inl ((o, l, a, b), λ e. absent o l (a ∙ e))
      | inr e ↦ inr e
    ],
    λ m. elim m [ inl a ↦ (p.maps k v).1 (inl a.0) | inr e ↦ (p.maps k v).1 (inr e) ],
  );
}

module _ (bt : BtBlock) (h : IsBlock bt) where
  module _ (off : ℕ) (live : Live bt.nr_items off) (val : List ℕ) (bt' : BtBlock)
      (r : Replaces bt off val bt') where
    now : (o : ℕ) → Live bt.nr_items o → Live bt'.nr_items o
    now o l = subst (λ n. Live n o) (sym r.nr_items) l

    before : (o : ℕ) → Live bt'.nr_items o → Live bt.nr_items o
    before o l = subst (λ n. Live n o) r.nr_items l

    ranks_same : (o : ℕ) → ranks bt' o ≡ ranks bt o
    ranks_same o = ap rank (r.keys o)

    index' : IsIndex (ranks bt') bt'.nr_items bt'.item_root
    index' =
        subst (λ n. IsIndex (ranks bt') n bt'.item_root) (sym r.nr_items)
          (subst (IsIndex (ranks bt') bt.nr_items) (sym r.item_root) (record {
            balanced = h.index.balanced;
            sorted =
                Sorted_agree (ranks bt) (ranks bt') (items bt.item_root) (λ o _. ranks_same o)
                  h.index.sorted;
            members = h.index.members;
            counted = h.index.counted;
          }))

    replaced-Sets : Sets bt (item_keys bt off) val bt'
    replaced-Sets = record {
      block = record {
        leaf = r.leaf;
        fits = λ o l. subst IsKey (sym (r.keys o)) (h.fits o (before o l));
        index = index';
      };
      maps = λ k v. (
        λ (o, l, a, b). elim (Bool-cases (o == off)) [
          | inl e ↦
              let at = (==_iff o off).0 e in
              inr (sym a ∙ r.keys o ∙ ap (item_keys bt) at, sym b ∙ ap (item_val bt') at ∙ r.value)
          | inr e ↦
              let n : o ≢ off = ground (arith, e) in
              let l' = before o l in
              inl (
                (o, l', sym (r.keys o) ∙ a, sym (r.values o l' n) ∙ b),
                λ f. n (IsBlock-unique bt h o off l' live (sym (r.keys o) ∙ a ∙ f)),
              )
        ],
        λ m. elim m [
          | inl ((o, l, a, b), n) ↦
              let d : o ≢ off = λ e. n (sym a ∙ ap (item_keys bt) e) in
              (o, now o l, r.keys o ∙ a, r.values o l d ∙ b)
          | inr (a, b) ↦ (off, now off live, r.keys off ∙ sym a, r.value ∙ sym b)
        ],
      );
    }

  -- the item of the key that scoutfs_btree_lookup refers to, where the leaf has one
  abbrev pub Looks : Key → Ret × Option ℕ → Type 0
  Looks key r =
      (Lacks bt key × (r ≡ (err enoent, none)))
      ⊎ ((o : ℕ) × Live bt.nr_items o × (item_keys bt o ≡ key) × (r ≡ (ok, some o)))

  -- At a whole leaf, scoutfs_btree_lookup with a reference that is not in use returns 0 and refers
  -- to an item of the leaf that has the key, or returns ENOENT where no item of the leaf has it.
  pub scoutfs_btree_lookup-Looks :
      (key : Key) → Looks key (scoutfs_btree_lookup Bool.false ok bt key)
  unfolding scoutfs_btree_lookup
  scoutfs_btree_lookup-Looks key = elim (hash_search-cases bt h key) [
    | inl (r, absent) ↦ inl (absent, rw (scoutfs_btree_lookup, r) refl)
    | inr (o, r, l, e) ↦ inr (o, l, e, rw (scoutfs_btree_lookup, r) refl)
  ]

  module _ (key : Key) (val : List ℕ) (room : mid_free_item_room bt (length val) ≡ true) where
    val_room : val_bytes (length val) ≤ bt.mid_free_len
    unfolding mid_free_item_room item_len_bytes
    val_room = ground (arith, room)

    pub replaced_item :
        (o : ℕ)
        → Live bt.nr_items o
        → item_keys bt o ≡ key
        → (bt' : BtBlock) × (update_item_value bt o val ≡ done bt') × Sets bt key val bt'
    replaced_item o l e =
        let (bt', run, r) = update_item_value-Replaces bt h.leaf o l val val_room in
        (bt', run, subst (λ k. Sets bt k val bt') e (replaced-Sets o l val bt' r))

    found-Sets :
        (o : ℕ)
        → Live bt.nr_items o
        → item_keys bt o ≡ key
        → (bt' : BtBlock) × (update_found bt o val ≡ done (ok, bt')) × Sets bt key val bt'
    found-Sets o l e =
        let (bt', run, s) = replaced_item o l e in
        (bt', ap (λ r. elim r [ bug ↦ bug | done b ↦ done (ok, b) ]) run, s)

    module _ (short : length val ≤ max_val_len) where
      valid : ltb max_val_len (length val) ≡ false
      valid = ground (arith, short)

      -- what scoutfs_btree_update does of a key that the leaf lacks, and of one that it has
      abbrev pub Updated : Kernel (Ret × BtBlock) → Type 0
      Updated r =
          (Lacks bt key × (r ≡ done (err enoent, bt)))
          ⊎ (((o : ℕ) × Live bt.nr_items o × (item_keys bt o ≡ key))
              × ((bt' : BtBlock) × (r ≡ done (ok, bt')) × Sets bt key val bt'))

      -- At a whole leaf whose middle has room for an item with the value, which is not too long,
      -- scoutfs_btree_update returns ENOENT and changes nothing where no item has the key; otherwise
      -- it meets no BUG and returns 0, and the leaf is whole again, where the key has the value and
      -- the other keys have the values that they had.
      pub scoutfs_btree_update-Updated : Updated (scoutfs_btree_update ok bt key val)
      unfolding scoutfs_btree_update
      scoutfs_btree_update-Updated = elim (hash_search-cases bt h key) [
        | inl (r, absent) ↦ inl (absent, rw (scoutfs_btree_update, valid, r) refl)
        | inr (o, r, l, e) ↦
            let (bt', run, s) = found-Sets o l e in
            inr ((o, l, e), (bt', rw (scoutfs_btree_update, valid, r) run, s))
      ]

      -- At a whole leaf whose middle has room for the item, with a key whose fields fit their types
      -- and a value that is not too long, scoutfs_btree_force meets no BUG and returns 0, and the leaf
      -- is whole again, where the key has the value, whether it was there before or not, and the other
      -- keys have the values that they had.
      pub scoutfs_btree_force-Sets :
          IsKey key
          → (bt' : BtBlock) × (scoutfs_btree_force ok bt key val ≡ done (ok, bt'))
            × Sets bt key val bt'
      unfolding scoutfs_btree_force
      scoutfs_btree_force-Sets fits = elim (hash_search-cases bt h key) [
        | inl (r, absent) ↦
            let (bt', run, found, p) = create_new-Puts bt h key val fits room absent in
            (bt', rw (scoutfs_btree_force, valid, r) run, Puts-Sets bt key val bt' absent p)
        | inr (o, r, l, e) ↦
            let (bt', run, s) = found-Sets o l e in (bt', rw (scoutfs_btree_force, valid, r) run, s)
      ]
