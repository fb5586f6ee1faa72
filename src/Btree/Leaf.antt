-- ===== src/Btree/Leaf.antt =====
-- A leaf block: the array of its items, its hash table and its values together.
use scoutfs_kmod_dev.Base.{
  ℕ, ◌<◌, ◌≡◌, ◌≢◌, ◌↔◌, ◌≤◌, ◌+◌, arith, subst, ◌⊎◌, inl, inr, Bool-cases, ◌==◌,
}
use scoutfs_kmod_dev.Btree.{BtBlock, item_off, item_keys, mid_free_end}
use scoutfs_kmod_dev.Btree.Hash.Table.{IsTable, Has}
use scoutfs_kmod_dev.Btree.Hash.Load.{load}
use scoutfs_kmod_dev.Btree.Values.{HasLayout, val_end}

-- the offset of one of the first `nr` items of the array
abbrev pub Live : ℕ → ℕ → Type 0
Live nr off = (i : ℕ) × (i < nr) × (off ≡ item_off i)

-- The hash table has exactly the items of the array, the values of the items stand apart from each
-- other and from the free ranges, and all is inside of the block.
pub record IsLeaf (bt : BtBlock) : Type 0 where
  pub leaf : bt.level ≡ 0
  pub table : IsTable (item_keys bt) bt.buckets
  pub has : (x : ℕ) → x ≢ 0 → Has bt.buckets x ↔ Live bt.nr_items x
  pub loaded : load bt.buckets ≡ bt.nr_items
  pub layout : HasLayout (Live bt.nr_items) bt
  pub short : mid_free_end bt ≤ val_end bt.level

module _ (bt : BtBlock) (h : IsLeaf bt) where
  pub IsLeaf-short : mid_free_end bt ≤ 61172
  IsLeaf-short = subst (λ l. mid_free_end bt ≤ val_end l) h.leaf h.short

pub Live_pos : (nr off : ℕ) → Live nr off → off ≢ 0
Live_pos nr off (i, l, e) z = omega (arith, e, z)

pub Live-bound : (nr off : ℕ) → Live nr off → off < item_off nr
Live-bound nr off (i, l, e) = omega (arith, e, l)

pub Live_suc : (nr off : ℕ) → Live (nr + 1) off → Live nr off ⊎ (off ≡ item_off nr)
Live_suc nr off (i, l, e) = elim (Bool-cases (i == nr)) [
  | inl x ↦ inr (ground (arith, x, e))
  | inr x ↦ inl (i, ground (arith, x, l), e)
]

pub Live_before : (nr off : ℕ) → Live (nr + 1) off → off ≢ item_off nr → Live nr off
Live_before nr off l n = elim (Live_suc nr off l) [ inl k ↦ k | inr e ↦ absurd (n e) ]

pub Live_more : (nr off : ℕ) → Live nr off → Live (nr + 1) off
Live_more nr off (i, l, e) = (i, omega (arith, l), e)
