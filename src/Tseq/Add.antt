-- ===== src/Tseq/Add.antt =====
-- scoutfs_tseq_add gives the new entry the least free position.
use scoutfs_kmod_dev.Base.{ℕ, ◌≤◌, List, [], ◌∷◌, arith, sym, subst, ap, ◌∙◌}
use scoutfs_kmod_dev.Base.Lists.{All}
use scoutfs_kmod_dev.RbTree.{Tree}
use scoutfs_kmod_dev.Tseq.{TseqEntry, tseq_link, tseq_add, positions, IsInsertAugmented}
use scoutfs_kmod_dev.Tseq.Fill.{Growing, mem}
use scoutfs_kmod_dev.Tseq.Walk.{IsTseq, Takes, tseq_link-Walked}

from_zero : (xs : List ℕ) → All (λ x. 0 ≤ x) xs
from_zero [] = tt
from_zero (x ∷ xs) = (omega arith, from_zero xs)

-- In a tree whose positions grow and whose totals count the entries, scoutfs_tseq_add takes one
-- position more, which was free and all lesser ones taken; in the tree after it the positions grow
-- and the totals count the entries.
pub tseq_add-Takes :
    (insert_augmented : Tree TseqEntry → Tree TseqEntry)
    → IsInsertAugmented insert_augmented
    → (t : Tree TseqEntry) → IsTseq t
    → Takes 0 t (tseq_add insert_augmented t) × IsTseq (tseq_add insert_augmented t)
unfolding tseq_add
tseq_add-Takes insert_augmented laws t inv =
    let w = tseq_link-Walked t 0 inv (from_zero (positions t)) in
    let same = laws.keeps_positions (tseq_link t 0) in
    (
      record {
        place = w.takes.place;
        from = w.takes.from;
        free = w.takes.free;
        least = w.takes.least;
        members = λ q. ap (mem q) same ∙ w.takes.members q;
      },
      record {
        growing = subst Growing (sym same) w.inv.growing;
        totals = laws.keeps_totals (tseq_link t 0) w.inv.totals;
      },
    )
