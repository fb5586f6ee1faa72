-- ===== src/Tseq/Next.antt =====
-- tseq_pos_next finds the first entry from a position on.
use native.Mathlib.Decide.{dec_lt}
use mathlib.Core.Bool.{false≢true}
use scoutfs_kmod_dev.Base.{
  ℕ, ◌<◌, ◌≤◌, ◌≡◌, ◌⊎◌, true, false, Option, some, List, ◌∷◌, arith, refl, sym, ◌∙◌, inl, inr,
}
use scoutfs_kmod_dev.Base.Lists.{All, All-append, All-imp}
use scoutfs_kmod_dev.RbTree.{Tree, leaf, node}
use scoutfs_kmod_dev.RbTree.Order.{Around, Sorted-Around}
use scoutfs_kmod_dev.Tseq.{TseqEntry, tseq_pos_next, positions}
use scoutfs_kmod_dev.Tseq.Fill.{Growing, mem, mem-All-false}
use scoutfs_kmod_dev.Tseq.Walk.{mem-node, self}

-- The entry has the least position among `xs` that is `pos` or more.
abbrev pub FirstFrom : ℕ → List ℕ → TseqEntry → Type 0
FirstFrom pos xs ent =
    (mem ent.pos xs ≡ true) × (pos ≤ ent.pos) × ((q : ℕ) → pos ≤ q → q < ent.pos → mem q xs ≡ false)

-- Either all positions are less than `pos` and the result is `next`, or it is the first entry.
abbrev pub Finds : ℕ → List ℕ → Option TseqEntry → Option TseqEntry → Type 0
Finds pos xs next found =
    (All (λ x. x < pos) xs × (found ≡ next))
    ⊎ ((ent : TseqEntry) × (found ≡ some ent) × FirstFrom pos xs ent)

below_all : (n q : ℕ) (xs : List ℕ) → All (λ x. x < n) xs → n ≤ q → mem q xs ≡ false
below_all n q xs h k = mem-All-false q (λ x. x < n) xs (λ l. omega (arith, l, k)) h

above_all : (n q : ℕ) (xs : List ℕ) → All (λ x. n < x) xs → q ≤ n → mem q xs ≡ false
above_all n q xs h k = mem-All-false q (λ x. n < x) xs (λ l. omega (arith, l, k)) h

less : (n q : ℕ) (xs : List ℕ) → All (λ x. x < n) xs → mem q xs ≡ true → q < n
less n q xs h m = elim (dec_lt q n) [
  | yes l ↦ l
  | no l ↦ absurd (false≢true (sym (below_all n q xs h (omega (arith, l))) ∙ m))
]

module _ (l : Tree TseqEntry) (ent : TseqEntry) (r : Tree TseqEntry) (pos : ℕ)
    (next : Option TseqEntry) (a : Around self (positions l) ent.pos (positions r)) where
  left_run : pos < ent.pos → tseq_pos_next (node l ent r) pos next ≡ tseq_pos_next l pos (some ent)
  unfolding tseq_pos_next
  left_run h = ground (arith, h)

  right_run : ent.pos < pos → tseq_pos_next (node l ent r) pos next ≡ tseq_pos_next r pos next
  unfolding tseq_pos_next
  right_run h = ground (arith, h)

  here_run : ent.pos ≡ pos → tseq_pos_next (node l ent r) pos next ≡ some ent
  unfolding tseq_pos_next
  here_run h = ground (arith, h)

  first_here :
      pos ≤ ent.pos
      → ((q : ℕ) → pos ≤ q → mem q (positions l) ≡ false)
      → FirstFrom pos (positions (node l ent r)) ent
  first_here h left = (
    ground (arith, mem-node l ent r ent.pos),
    h,
    λ q i j. ground (
      arith,
      mem-node l ent r q,
      left q i,
      above_all ent.pos q (positions r) a.above (omega (arith, j)),
      j,
    ),
  )

  in_left :
      pos < ent.pos
      → Finds pos (positions l) (some ent) (tseq_pos_next l pos (some ent))
      → Finds pos (positions (node l ent r)) next (tseq_pos_next (node l ent r) pos next)
  in_left h (inl (all, q)) = inr (
    ent,
    left_run h ∙ q,
    first_here (omega (arith, h)) (λ q' i. below_all pos q' (positions l) all i),
  )
  in_left h (inr (e, q, (m, i, least))) =
      let before = less ent.pos e.pos (positions l) a.below m in
      inr (
        e,
        left_run h ∙ q,
        (
          ground (arith, mem-node l ent r e.pos, m),
          i,
          λ q' j k. ground (
            arith,
            mem-node l ent r q',
            least q' j k,
            above_all ent.pos q' (positions r) a.above (omega (arith, k, before)),
            k,
            before,
          ),
        ),
      )

  in_right :
      ent.pos < pos
      → Finds pos (positions r) next (tseq_pos_next r pos next)
      → Finds pos (positions (node l ent r)) next (tseq_pos_next (node l ent r) pos next)
  in_right h (inl (all, q)) = inl (
    All-append (λ x. x < pos) (positions l) (ent.pos ∷ positions r)
        (All-imp (λ x k. omega (arith, k, h)) (positions l) a.below) (h, all),
    right_run h ∙ q,
  )
  in_right h (inr (e, q, (m, i, least))) = inr (
    e,
    right_run h ∙ q,
    (
      ground (arith, mem-node l ent r e.pos, m),
      i,
      λ q' j k. ground (
        arith,
        mem-node l ent r q',
        least q' j k,
        below_all ent.pos q' (positions l) a.below (omega (arith, j, h)),
        j,
        h,
      ),
    ),
  )

-- In a tree whose positions grow, tseq_pos_next finds the entry with the least position that is
-- `pos` or more, and `next` where there is none.
pub tseq_pos_next-Finds :
    (t : Tree TseqEntry) (pos : ℕ) (next : Option TseqEntry)
    → Growing (positions t)
    → Finds pos (positions t) next (tseq_pos_next t pos next)
unfolding tseq_pos_next
tseq_pos_next-Finds leaf pos next h = inl (tt, refl)
tseq_pos_next-Finds (node l ent r) pos next h =
    let a = Sorted-Around self (positions l) ent.pos (positions r) h in
    let left = tseq_pos_next-Finds l pos (some ent) a.left in
    let right = tseq_pos_next-Finds r pos next a.right in
    elim (dec_lt pos ent.pos) [
      | yes before ↦ in_left l ent r pos next a before left
      | no m ↦ elim (dec_lt ent.pos pos) [
        | yes after ↦ in_right l ent r pos next a after right
        | no n ↦ inr (
          ent,
          here_run l ent r pos next a (omega (arith, m, n)),
          first_here l ent r pos next a (omega (arith, m, n))
              (λ q i. below_all ent.pos q (positions l) a.below (omega (arith, i, n))),
        )
      ]
    ]
