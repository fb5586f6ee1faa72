-- ===== src/Btree/Block.antt =====
-- A leaf block as a whole, and the map from keys to values that it stands for.
use scoutfs_kmod_dev.Btree.Hash.{leaf_item_hash_search, same_key}
use scoutfs_kmod_dev.Btree.Index.{IsIndex}
use scoutfs_kmod_dev.Btree.Nodes.{Among, Among-All}
use scoutfs_kmod_dev.Btree.Ops.{hash_search}
use scoutfs_kmod_dev.Key.Order.{IsKey, rank, key_compare-rank}
use scoutfs_kmod_dev.Btree.Leaf.{IsLeaf, Live, Live_pos}
use scoutfs_kmod_dev.Key.{Key, key_compare}
use scoutfs_kmod_dev.Btree.{BtBlock, item_keys, item_val, key_compare, leaf_item_hash_search}
use scoutfs_kmod_dev.Base.{
  [], ◌∷◌, List, ℕ, List, ◌≡◌, compare, none, ap, ◌≢◌, Ordering, ◌⊎◌, some, sym, ◌∙◌, inl, ◌∷◌, inr,
  arith, ◌<◌, refl,
}
use scoutfs_kmod_dev.RbTree.{Sorted}
use scoutfs_kmod_dev.Avl.{items}
use scoutfs_kmod_dev.Btree.Hash.Table.{leaf_item_hash_search-Finds, same_key-eq}

abbrev pub ranks : BtBlock → ℕ → ℕ
ranks bt o = rank (item_keys bt o)

-- The array, the hash table and the values are as they should be, and the tree is their index.
pub record IsBlock (bt : BtBlock) : Type 0 where
  pub leaf : IsLeaf bt
  pub fits : (o : ℕ) → Live bt.nr_items o → IsKey (item_keys bt o)
  pub index : IsIndex (ranks bt) bt.nr_items bt.item_root

-- some item has the key and the value
abbrev pub Maps : BtBlock → Key → List ℕ → Type 0
Maps bt k v = (o : ℕ) × Live bt.nr_items o × (item_keys bt o ≡ k) × (item_val bt o ≡ v)

abbrev pub Lacks : BtBlock → Key → Type 0
Lacks bt k = (o : ℕ) → Live bt.nr_items o → item_keys bt o ≢ k

compare-eq : (a b : ℕ) → a ≡ b → compare a b ≡ Ordering.eq
compare-eq a b e = ground (arith, e)

pub rank-eq : (a b : Key) → IsKey a → IsKey b → rank a ≡ rank b → a ≡ b
rank-eq a b ha hb e =
    let c : compare (rank a) (rank b) ≡ Ordering.eq = compare-eq (rank a) (rank b) e in
    let d : key_compare a b ≡ Ordering.eq = key_compare-rank a b ha hb ∙ c in
    same_key-eq a b (rw (same_key, d) refl)

Sorted-unique :
    (key : ℕ → ℕ) (xs : List ℕ)
    → Sorted key xs
    → (o p : ℕ) → Among o xs
    → Among p xs
    → key o ≡ key p
    → o ≡ p
Sorted-unique key [] h o p m k e = absurd m
Sorted-unique key (x ∷ xs) h o p (inl a) (inl b) e = a ∙ sym b
Sorted-unique key (x ∷ xs) h o p (inl a) (inr k) e =
    absurd (omega (arith, e, ap key a, Among-All (λ y. key x < key y) xs h.0 p k))
Sorted-unique key (x ∷ xs) h o p (inr m) (inl b) e =
    absurd (omega (arith, e, ap key b, Among-All (λ y. key x < key y) xs h.0 o m))
Sorted-unique key (x ∷ xs) h o p (inr m) (inr k) e = Sorted-unique key xs h.1 o p m k e

module _ (bt : BtBlock) (h : IsBlock bt) where
  -- no key is in the leaf twice
  pub IsBlock-unique :
      (o p : ℕ) → Live bt.nr_items o → Live bt.nr_items p → item_keys bt o ≡ item_keys bt p → o ≡ p
  IsBlock-unique o p l m e =
      Sorted-unique (ranks bt) (items bt.item_root) h.index.sorted o p ((h.index.members o).1 l)
        ((h.index.members p).1 m) (ap rank e)

  pub hash_search-cases :
      (key : Key)
      → ((hash_search bt key ≡ none) × Lacks bt key)
        ⊎ ((o : ℕ) × (hash_search bt key ≡ some o) × Live bt.nr_items o × (item_keys bt o ≡ key))
  hash_search-cases key =
      let leaf = h.leaf in
      let same : leaf_item_hash_search (item_keys bt) 0 bt.buckets key ≡ hash_search bt key =
        ap (λ l. leaf_item_hash_search (item_keys bt) l bt.buckets key) (sym leaf.leaf) in
      elim (leaf_item_hash_search-Finds (item_keys bt) bt.buckets leaf.table key) [
        | inl (r, absent) ↦ inl (
          sym same ∙ r,
          λ o l e. let n = Live_pos bt.nr_items o l in absent o n ((leaf.has o n).1 l) e,
        )
        | inr (o, r, n, a, e) ↦ inr (o, sym same ∙ r, (leaf.has o n).0 a, e)
      ]
