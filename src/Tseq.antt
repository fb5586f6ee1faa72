-- ===== src/Tseq.antt =====
-- tseq.c: entries that are shown in the order of their positions; an entry is added at the least
-- position that is free.
pub mod Fill
pub mod Walk
pub mod Add
pub mod Next
mod Tests
use scoutfs_kmod_dev.Base.{ℕ, ◌+◌, ◌≡◌, ltb, if◌then◌else◌, List, [], ◌∷◌, ◌++◌, Option, none, some}
use scoutfs_kmod_dev.RbTree.{Tree, leaf, node}

-- struct scoutfs_tseq_entry; its rb_node is its place in the tree
pub record TseqEntry : Type 0 where
  pub pos : ℕ
  pub total : ℕ

unfoldable pub tseq_node_total : Tree TseqEntry → ℕ
tseq_node_total leaf = 0
tseq_node_total (node _ ent _) = ent.total

unfoldable pub tseq_compute_total : Tree TseqEntry → Tree TseqEntry → ℕ
tseq_compute_total l r = 1 + tseq_node_total l + tseq_node_total r

-- The walk of scoutfs_tseq_add to the leaf where the new entry is linked.
unfoldable pub tseq_link : Tree TseqEntry → ℕ → Tree TseqEntry
tseq_link leaf min_pos = node leaf (record { pos = min_pos; total = 1 }) leaf
tseq_link (node l ent r) min_pos =
    let left = tseq_link l min_pos in
    let right = tseq_link r (ent.pos + 1) in
    let counted = record ent { total = ent.total + 1 } in
    if ltb (min_pos + tseq_node_total l) ent.pos then node left counted r else node l counted right

-- `insert_augmented` is rb_insert_augmented once the entry is linked.
unfoldable pub tseq_add : (Tree TseqEntry → Tree TseqEntry) → Tree TseqEntry → Tree TseqEntry
tseq_add insert_augmented t = insert_augmented (tseq_link t 0)

-- The first entry at the position or after it; `next` is the best one so far.
unfoldable pub tseq_pos_next : Tree TseqEntry → ℕ → Option TseqEntry → Option TseqEntry
tseq_pos_next leaf pos next = next
tseq_pos_next (node l ent r) pos next =
    let left = tseq_pos_next l pos (some ent) in
    let right = tseq_pos_next r pos next in
    if ltb pos ent.pos then left else if ltb ent.pos pos then right else some ent

abbrev pub positions : Tree TseqEntry → List ℕ
positions leaf = []
positions (node l ent r) = positions l ++ ent.pos ∷ positions r

-- Every total is what tseq_compute_total computes.
abbrev pub Totals : Tree TseqEntry → Type 0
Totals leaf = Unit
Totals (node l ent r) = (ent.total ≡ tseq_compute_total l r) × Totals l × Totals r

-- The insertion keeps the order of the entries, and the totals by way of its callbacks.
pub record IsInsertAugmented (insert_augmented : Tree TseqEntry → Tree TseqEntry) : Type 0 where
  pub keeps_positions : (t : Tree TseqEntry) → positions (insert_augmented t) ≡ positions t
  pub keeps_totals : (t : Tree TseqEntry) → Totals t → Totals (insert_augmented t)
