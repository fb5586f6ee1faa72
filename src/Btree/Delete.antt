-- ===== src/Btree/Delete.antt =====
-- scoutfs_btree_delete at a leaf.
use scoutfs_kmod_dev.Key.Order.{IsKey, rank}
use scoutfs_kmod_dev.Avl.Height.{offsets}
use scoutfs_kmod_dev.Btree.Index.{IsIndex, delete-IsIndex, relocate-IsIndex}
use scoutfs_kmod_dev.Btree.Leaf.{Live, IsLeaf-short}
use scoutfs_kmod_dev.Key.{Key}
use scoutfs_kmod_dev.Btree.Block.{IsBlock, ranks, hash_search-cases, Maps, Lacks, IsBlock-unique}
use scoutfs_kmod_dev.Btree.{BtBlock, Key, item_keys, item_off, delete_node, relocate_node, item_val}
use scoutfs_kmod_dev.Base.{
  ℕ, none, Ret, List, Option, ok, ◌≢◌, ◌+◌, Kernel, ◌≡◌, inl, subst, ◌↔◌, ◌-◌, if◌then◌else◌, ◌<◌,
  inr, ◌==◌, arith, some, sym, ◌∙◌, Bool-cases, done, ap, Ret-cases, ==_iff, err, enoent, refl, ◌⊎◌,
  Errno,
}
use scoutfs_kmod_dev.Base.Rules.{if_rule}
use scoutfs_kmod_dev.Btree.Remove.{Deletes, delete_item-Deletes}
use scoutfs_kmod_dev.Btree.Moves.{moved_from, from_live, used_after}
use scoutfs_kmod_dev.Btree.Ops.{BtRoot, scoutfs_btree_delete}

-- The block's map is that of another, without a key.
pub record Drops (bt : BtBlock) (key : Key) (bt' : BtBlock) : Type 0 where
  pub block : IsBlock bt'
  pub maps : (k : Key) (v : List ℕ) → Maps bt' k v ↔ (Maps bt k v × (k ≢ key))

module _ (bt : BtBlock) (h : IsBlock bt) (off : ℕ) (live : Live bt.nr_items off) (bt' : BtBlock)
    (after : Option ℕ) (d : Deletes bt off none bt' after) where
  fewer : bt'.nr_items ≡ bt.nr_items - 1
  fewer = omega (arith, d.nr_items)

  old-IsIndex : IsIndex (ranks bt) (bt'.nr_items + 1) bt.item_root
  old-IsIndex = subst (λ n. IsIndex (ranks bt) n bt.item_root) (sym d.nr_items) h.index

  old_live : Live (bt'.nr_items + 1) off
  old_live = subst (λ n. Live n off) (sym d.nr_items) live

  small : bt'.nr_items + 1 < offsets
  small = omega (arith, d.nr_items, IsLeaf-short bt h.leaf)

  abbrev LastAt : ℕ → Type 0
  LastAt n = IsIndex (ranks bt') bt'.nr_items (
      if item_off n == off
      then delete_node bt.item_root off
      else relocate_node (delete_node bt.item_root off) off (item_off n))

  moved_ranks :
      (o : ℕ)
      → Live bt'.nr_items o
      → ranks bt' o ≡ ranks bt (if o == off then item_off bt'.nr_items else o)
  moved_ranks o l =
      subst (λ n. ranks bt' o ≡ ranks bt (if o == off then item_off n else o)) (sym fewer)
        (ap rank (d.keys o l))

  new-IsIndex : IsIndex (ranks bt') bt'.nr_items bt'.item_root
  new-IsIndex = subst (IsIndex (ranks bt') bt'.nr_items) (sym d.item_root) (
      subst LastAt fewer (
        if_rule (IsIndex (ranks bt') bt'.nr_items) (item_off bt'.nr_items == off) _ _
          (λ e.
            delete-IsIndex (ranks bt) (ranks bt') bt'.nr_items bt.item_root off old-IsIndex old_live
              small moved_ranks ((==_iff _ _).0 e))
          (λ e.
            relocate-IsIndex (ranks bt) (ranks bt') bt'.nr_items bt.item_root off old-IsIndex
              old_live small moved_ranks (ground (arith, e)))))

  was :
      (o : ℕ)
      → Live bt'.nr_items o
      → Live bt.nr_items (moved_from bt off o) × (moved_from bt off o ≢ off)
  was o l = from_live bt h.leaf off live o (subst (λ n. Live n o) fewer l)

  pub deleted-Drops : Drops bt (item_keys bt off) bt'
  deleted-Drops = record {
    block = record {
      leaf = d.leaf;
      fits = λ o l. subst IsKey (sym (d.keys o l)) (h.fits (moved_from bt off o) (was o l).0);
      index = new-IsIndex;
    };
    maps = λ k v. (
      λ (o, l, a, b).
          let (m, n) = was o l in
          (
            (moved_from bt off o, m, sym (d.keys o l) ∙ a, sym (d.values o l) ∙ b),
            λ e.
                n (IsBlock-unique bt h (moved_from bt off o) off m live (sym (d.keys o l) ∙ a ∙ e)),
          ),
      λ ((o, l, a, b), n).
          let (m, e) = used_after bt h.leaf off live o l (λ f. n (sym a ∙ ap (item_keys bt) f)) in
          let to = if o == item_off (bt.nr_items - 1) then off else o in
          let m' : Live bt'.nr_items to = subst (λ n. Live n to) (sym fewer) m in
          (to, m', d.keys to m' ∙ ap (item_keys bt) e ∙ a, d.values to m' ∙ ap (item_val bt) e ∙ b),
    );
  }

-- the root of a btree that has no block
abbrev no_block : BtRoot
no_block = record { blkno = 0; seq = 0; height = 0 }

module _ (freed : Ret) (root : BtRoot) (bt : BtBlock) (h : IsBlock bt) (key : Key) where
  -- What scoutfs_btree_delete does of a key that the leaf lacks, of the key of the only item, whose
  -- block it frees, and of another item's key.
  abbrev pub Deleted : Option (Kernel (Ret × BtRoot × BtBlock)) → Type 0
  Deleted r =
      (Lacks bt key × (r ≡ some (done (err enoent, root, bt))))
      ⊎ ((bt.nr_items ≡ 1)
          × ((o : ℕ) × Live bt.nr_items o × (item_keys bt o ≡ key))
          × (((freed ≡ ok) × (r ≡ some (done (ok, no_block, bt))))
              ⊎ ((e : Errno) × (freed ≡ err e) × (r ≡ some (done (err e, root, bt))))))
      ⊎ ((bt.nr_items ≢ 1)
          × ((o : ℕ) × Live bt.nr_items o × (item_keys bt o ≡ key))
          × ((bt' : BtBlock) × (r ≡ some (done (ok, root, bt'))) × Drops bt key bt'))

  -- At a whole leaf, scoutfs_btree_delete ends and meets no BUG. Where no item has the key it
  -- returns ENOENT and changes nothing. Where the only item has it, the block is freed, and the
  -- root refers to no block unless that fails with an error, which is returned. Otherwise the leaf
  -- is whole again, with all keys and values but the deleted ones, and 0 is returned.
  pub scoutfs_btree_delete-Deleted : Deleted (scoutfs_btree_delete ok freed root bt key)
  unfolding scoutfs_btree_delete
  scoutfs_btree_delete-Deleted = elim (hash_search-cases bt h key) [
    | inl (r, absent) ↦ inl (absent, rw (scoutfs_btree_delete, r) refl)
    | inr (o, r, l, e) ↦ elim (Bool-cases (bt.nr_items == 1)) [
      | inl one ↦ elim (Ret-cases freed) [
        | inl f ↦ inr (
            inl ((==_iff _ _).0 one, (o, l, e), inl (f, rw (scoutfs_btree_delete, r, one, f) refl)))
        | inr (x, f) ↦ inr (
            inl (
              (==_iff _ _).0 one,
              (o, l, e),
              inr (x, f, rw (scoutfs_btree_delete, r, one, f) refl),
            ))
      ]
      | inr more ↦
          let (bt', after, run, d) = delete_item-Deletes bt h.leaf o l none in
          inr (
            inr (
              ground (arith, more),
              (o, l, e),
              (
                bt',
                rw (scoutfs_btree_delete, r, more, run) refl,
                subst (λ k. Drops bt k bt') e (deleted-Drops bt h o l bt' after d),
              ),
            ))
    ]
  ]
