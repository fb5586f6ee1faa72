-- ===== src/Tseq/Tests.antt =====
-- A run of tseq.c, and its theorems at a concrete tree.
use scoutfs_kmod_dev.Base.{none, ◌≡◌, refl, arith, [], ◌∷◌}
use scoutfs_kmod_dev.RbTree.{Tree, leaf, node}
use scoutfs_kmod_dev.Tseq.{
  tseq_pos_next, TseqEntry, tseq_add, tseq_link, tseq_node_total, tseq_compute_total, positions,
  IsInsertAugmented,
}
use scoutfs_kmod_dev.Tseq.Walk.{IsTseq, Takes}
use scoutfs_kmod_dev.Tseq.Next.{Finds, tseq_pos_next-Finds}
use scoutfs_kmod_dev.Tseq.Add.{tseq_add-Takes}

-- an insertion that leaves the tree as it is linked
abbrev unbalanced : Tree TseqEntry → Tree TseqEntry
unbalanced t = t

unbalanced-IsInsertAugmented : IsInsertAugmented unbalanced
unbalanced-IsInsertAugmented = record { keeps_positions = λ t. refl; keeps_totals = λ t h. h }

-- positions 0 and 2 are taken
abbrev gap : Tree TseqEntry
gap = node (node leaf (record { pos = 0; total = 1 }) leaf) (record { pos = 2; total = 2 }) leaf

gap-IsTseq : IsTseq gap
unfolding tseq_node_total tseq_compute_total
gap-IsTseq = record { growing = ((omega arith, tt), (tt, tt)); totals = (refl, (refl, tt, tt), tt) }

add_fills : positions (tseq_add unbalanced gap) ≡ 0 ∷ 1 ∷ 2 ∷ []
unfolding tseq_add tseq_link tseq_node_total
add_fills = refl

tseq_add-Takes_example : Takes 0 gap (tseq_add unbalanced gap) × IsTseq (tseq_add unbalanced gap)
tseq_add-Takes_example = tseq_add-Takes unbalanced unbalanced-IsInsertAugmented gap gap-IsTseq

tseq_pos_next-Finds_example : Finds 1 (positions gap) none (tseq_pos_next gap 1 none)
tseq_pos_next-Finds_example = tseq_pos_next-Finds gap 1 none gap-IsTseq.growing
