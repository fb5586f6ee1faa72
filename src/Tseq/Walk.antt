-- ===== src/Tseq/Walk.antt =====
-- The walk of scoutfs_tseq_add ends at the least free position.

use native.Mathlib.Decide.{dec_lt}
use scoutfs_kmod_dev.Base.{
  ℕ, ◌+◌, ◌<◌, ◌≤◌, ◌≡◌, ◌==◌, ◌||◌, true, false, List, [], ◌∷◌, arith, refl,
}
use scoutfs_kmod_dev.Base.Lists.{
  All, All-append, All-append_left, All-append_right, length, length-append,
}
use scoutfs_kmod_dev.RbTree.{Tree, leaf, node}
use scoutfs_kmod_dev.RbTree.Order.{Around, Sorted-Around, Around-Sorted}
use scoutfs_kmod_dev.Tseq.{
  TseqEntry, tseq_node_total, tseq_compute_total, tseq_link, positions, Totals,
}
use scoutfs_kmod_dev.Tseq.Fill.{Growing, mem, mem-append, mem-All-false, all_taken}

abbrev pub self : ℕ → ℕ
self n = n

-- The positions grow from left to right and the totals count the entries.
pub record IsTseq (t : Tree TseqEntry) : Type 0 where
  pub growing : Growing (positions t)
  pub totals : Totals t

-- One position more is taken: it was free, and all lesser ones from `first` on were taken.
pub record Takes (first : ℕ) (before after : Tree TseqEntry) : Type 0 where
  pub place : ℕ
  pub from : first ≤ place
  pub free : mem place (positions before) ≡ false
  pub least : (q : ℕ) → first ≤ q → q < place → mem q (positions before) ≡ true
  pub members : (q : ℕ) → mem q (positions after) ≡ (q == place || mem q (positions before))

length-positions : (t : Tree TseqEntry) → Totals t → length (positions t) ≡ tseq_node_total t
unfolding tseq_node_total tseq_compute_total
length-positions leaf h = refl
length-positions (node l ent r) h = omega (
  arith,
  length-append (positions l) (ent.pos ∷ positions r),
  length-positions l h.1,
  length-positions r h.2,
  h.0,
)

pub mem-node :
    (l : Tree TseqEntry) (ent : TseqEntry) (r : Tree TseqEntry) (q : ℕ)
    → mem q (positions (node l ent r))
      ≡ (mem q (positions l) || (q == ent.pos || mem q (positions r)))
unfolding mem
mem-node l ent r q = mem-append q (positions l) (ent.pos ∷ positions r)

-- What the walk through a subtree does, whose positions are `first` or more.
pub record Walked (first : ℕ) (t : Tree TseqEntry) : Type 0 where
  pub takes : Takes first t (tseq_link t first)
  near : takes.place ≤ first + tseq_node_total t
  counted : tseq_node_total (tseq_link t first) ≡ tseq_node_total t + 1
  pub inv : IsTseq (tseq_link t first)
  below :
      (n : ℕ)
      → All (λ x. x < n) (positions t)
      → takes.place < n
      → All (λ x. x < n) (positions (tseq_link t first))
  above :
      (n : ℕ)
      → All (λ x. n < x) (positions t)
      → n < takes.place
      → All (λ x. n < x) (positions (tseq_link t first))

tseq_link-leaf : (first : ℕ) → Walked first leaf
unfolding tseq_link tseq_node_total tseq_compute_total mem
tseq_link-leaf first = record {
  takes = record {
    place = first;
    from = omega arith;
    free = refl;
    least = λ q i j. absurd (omega (arith, i, j));
    members = λ q. refl;
  };
  near = omega arith;
  counted = refl;
  inv = record { growing = (tt, tt); totals = (refl, tt, tt) };
  below = λ n _ h. (h, tt);
  above = λ n _ h. (h, tt);
}

module _ (l : Tree TseqEntry) (ent : TseqEntry) (r : Tree TseqEntry) (first : ℕ)
    (inv : IsTseq (node l ent r)) (from : All (λ x. first ≤ x) (positions (node l ent r))) where
  abbrev sides : Around self (positions l) ent.pos (positions r)
  sides = Sorted-Around self (positions l) ent.pos (positions r) inv.growing

  abbrev counted_ent : TseqEntry
  counted_ent = record ent { total = ent.total + 1 }

  from_left : All (λ x. first ≤ x) (positions l)
  from_left = All-append_left (λ x. first ≤ x) (positions l) (ent.pos ∷ positions r) from

  left_run :
      first + tseq_node_total l < ent.pos
      → tseq_link (node l ent r) first ≡ node (tseq_link l first) counted_ent r
  unfolding tseq_link
  left_run h = ground (arith, h)

  right_run :
      ¬ (first + tseq_node_total l < ent.pos)
      → tseq_link (node l ent r) first ≡ node l counted_ent (tseq_link r (ent.pos + 1))
  unfolding tseq_link
  right_run h = ground (arith, h)

  go_left : Walked first l → first + tseq_node_total l < ent.pos → Walked first (node l ent r)
  unfolding tseq_node_total tseq_compute_total
  go_left w hole =
      let p = w.takes.place in
      let before : p < ent.pos = omega (arith, w.near, hole) in
      let right_free =
        mem-All-false p (λ x. ent.pos < x) (positions r) (λ q. omega (arith, q, before))
          sides.above in
      record {
        takes = record {
          place = p;
          from = w.takes.from;
          free = ground (arith, mem-node l ent r p, w.takes.free, right_free, before);
          least = λ q i j. ground (arith, mem-node l ent r q, w.takes.least q i j);
          members = λ q. rw (left_run hole) (
              ground (
                arith,
                mem-node (tseq_link l first) counted_ent r q,
                mem-node l ent r q,
                w.takes.members q,
              ));
        };
        near = omega (arith, w.near, inv.totals.0);
        counted = rw (left_run hole) refl;
        inv = rw (left_run hole) (record {
          growing =
              Around-Sorted self (positions (tseq_link l first)) ent.pos (positions r) (record {
                below = w.below ent.pos sides.below before;
                above = sides.above;
                left = w.inv.growing;
                right = sides.right;
              });
          totals = (omega (arith, inv.totals.0, w.counted), w.inv.totals, inv.totals.2);
        });
        below = λ n h k. rw (left_run hole) (
            All-append (λ x. x < n) (positions (tseq_link l first)) (ent.pos ∷ positions r)
              (w.below n (All-append_left (λ x. x < n) (positions l) (ent.pos ∷ positions r) h) k)
              (All-append_right (λ x. x < n) (positions l) (ent.pos ∷ positions r) h));
        above = λ n h k. rw (left_run hole) (
            All-append (λ x. n < x) (positions (tseq_link l first)) (ent.pos ∷ positions r)
              (w.above n (All-append_left (λ x. n < x) (positions l) (ent.pos ∷ positions r) h) k)
              (All-append_right (λ x. n < x) (positions l) (ent.pos ∷ positions r) h));
      }

  go_right :
      Walked (ent.pos + 1) r → ¬ (first + tseq_node_total l < ent.pos) → Walked first (node l ent r)
  unfolding tseq_node_total tseq_compute_total
  go_right w full =
      let p = w.takes.place in
      let after : ent.pos < p = omega (arith, w.takes.from) in
      let start : first ≤ ent.pos =
        (All-append_right (λ x. first ≤ x) (positions l) (ent.pos ∷ positions r) from).0 in
      let left_free =
        mem-All-false p (λ x. x < ent.pos) (positions l) (λ q. omega (arith, q, after))
          sides.below in
      let taken = λ (q : ℕ) (i : first ≤ q) (j : q < ent.pos).
        all_taken (positions l) first ent.pos q sides.left from_left sides.below
          (omega (arith, full, length-positions l inv.totals.1)) i j in
      record {
        takes = record {
          place = p;
          from = omega (arith, after, start);
          free = ground (arith, mem-node l ent r p, w.takes.free, left_free, after);
          least = λ q i j. ground (arith, mem-node l ent r q, w.takes.least q, taken q i, j);
          members = λ q. rw (right_run full) (
              ground (
                arith,
                mem-node l counted_ent (tseq_link r (ent.pos + 1)) q,
                mem-node l ent r q,
                w.takes.members q,
              ));
        };
        near = omega (arith, w.near, inv.totals.0, full);
        counted = rw (right_run full) refl;
        inv = rw (right_run full) (record {
          growing =
              Around-Sorted self (positions l) ent.pos (positions (tseq_link r (ent.pos + 1)))
                (record {
                  below = sides.below;
                  above = w.above ent.pos sides.above after;
                  left = sides.left;
                  right = w.inv.growing;
                });
          totals = (omega (arith, inv.totals.0, w.counted), inv.totals.1, w.inv.totals);
        });
        below = λ n h k. rw (right_run full) (
            let rest = All-append_right (λ x. x < n) (positions l) (ent.pos ∷ positions r) h in
            All-append (λ x. x < n) (positions l) (ent.pos ∷ positions (tseq_link r (ent.pos + 1)))
              (All-append_left (λ x. x < n) (positions l) (ent.pos ∷ positions r) h)
              (rest.0, w.below n rest.1 k));
        above = λ n h k. rw (right_run full) (
            let rest = All-append_right (λ x. n < x) (positions l) (ent.pos ∷ positions r) h in
            All-append (λ x. n < x) (positions l) (ent.pos ∷ positions (tseq_link r (ent.pos + 1)))
              (All-append_left (λ x. n < x) (positions l) (ent.pos ∷ positions r) h)
              (rest.0, w.above n rest.1 k));
      }

-- an entry above a bound is at the next place or later
later : (n : ℕ) (xs : List ℕ) → All (λ x. n < x) xs → All (λ x. n + 1 ≤ x) xs
later n [] h = tt
later n (x ∷ xs) h = (omega (arith, h.0), later n xs h.1)

pub tseq_link-Walked :
    (t : Tree TseqEntry) (first : ℕ)
    → IsTseq t
    → All (λ x. first ≤ x) (positions t)
    → Walked first t
tseq_link-Walked leaf first inv from = tseq_link-leaf first
tseq_link-Walked (node l ent r) first inv from =
    let a = sides l ent r first inv from in
    let w_left =
      tseq_link-Walked l first (record { growing = a.left; totals = inv.totals.1 })
        (from_left l ent r first inv from) in
    let w_right =
      tseq_link-Walked r (ent.pos + 1) (record { growing = a.right; totals = inv.totals.2 })
        (later ent.pos (positions r) a.above) in
    elim (dec_lt (first + tseq_node_total l) ent.pos) [
      | yes hole ↦ go_left l ent r first inv from w_left hole
      | no full ↦ go_right l ent r first inv from w_right full
    ]
