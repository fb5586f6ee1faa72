-- ===== src/Avl/Relink.antt =====
-- scoutfs_avl_relocate on the links moves the node of the tree that they represent.
use scoutfs_kmod_dev.Base.{ℕ, ◌≡◌, ◌≢◌, ◌⊎◌, arith, inl, sym, inr, subst}
use scoutfs_kmod_dev.Avl.{
  Avl, nil, node, Above, top, from_left, from_right, whole, moved_to, with_container,
}
use scoutfs_kmod_dev.Avl.Fields.{
  Around, children_kept, parent_kept, child_moved, moved, parent_moved, root_moved, root_kept,
}
use scoutfs_kmod_dev.Avl.Linked.{
  parent_of, LinkedAbove, whole-Linked, offset-NotIn, NotAbove-parent, child_of_parent,
  parent_of_child,
}
use scoutfs_kmod_dev.Avl.Links.{AvlLinks, avl_relocate, offset, Linked, Represents, NotIn, NotAbove}

module _ (s : AvlLinks) (to from : ℕ) (around : Around s to from) where
  open around use {some_from}

  abbrev s' : AvlLinks
  s' = avl_relocate s to from

  -- A subtree that neither has the nodes nor hangs below `from` keeps its links.
  Linked-kept :
      (up : ℕ) (t : Avl ℕ) → up ≢ from → NotIn from t → NotIn to t → Linked s up t → Linked s' up t
  Linked-kept up nil u f o h = tt
  Linked-kept up (node l x k r) u f o (n, (p, a, b, c), hl, hr) =
      let same =
        children_kept s to from around x n o.0 (omega (arith, a, offset-NotIn from l some_from f.1))
          (omega (arith, b, offset-NotIn from r some_from f.2)) in
      let par = parent_kept s to from around x n o.0 (omega (arith, p, u)) in
      (
        n,
        (
          omega (arith, par, p),
          omega (arith, same, a),
          omega (arith, same, b),
          omega (arith, same, c),
        ),
        Linked-kept x l f.0 f.1 o.1 hl,
        Linked-kept x r f.0 f.2 o.2 hr,
      )

  -- A child's subtree of `from` is one of `to` after it.
  Linked-child :
      (t : Avl ℕ)
      → ((offset t ≡ s.left from) ⊎ (offset t ≡ s.right from))
      → NotIn from t
      → NotIn to t
      → Linked s from t
      → Linked s' to t
  Linked-child nil side f o h = tt
  Linked-child (node l x k r) side f o (n, (p, a, b, c), hl, hr) =
      let same =
        children_kept s to from around x n o.0 (omega (arith, a, offset-NotIn from l some_from f.1))
          (omega (arith, b, offset-NotIn from r some_from f.2)) in
      (
        n,
        (
          child_moved s to from around x n o.0 side,
          omega (arith, same, a),
          omega (arith, same, b),
          omega (arith, same, c),
        ),
        Linked-kept x l f.0 f.1 o.1 hl,
        Linked-kept x r f.0 f.2 o.2 hr,
      )

  -- The parents from one on of which `from` is no child, and which hangs below another.
  LinkedAbove-kept :
      (up : Above ℕ) (child : ℕ)
      → s.parent from ≢ 0
      → child ≢ from
      → NotAbove from up
      → NotAbove to up
      → LinkedAbove s up child
      → LinkedAbove s' up child
  LinkedAbove-kept top child p c f o h = omega (arith, h, root_kept s to from around p)
  LinkedAbove-kept (from_left up x k r) child p c f o (n, (a, b, d, e), hr, hup) =
      let same =
        children_kept s to from around x n o.0 (omega (arith, b, c))
          (omega (arith, d, offset-NotIn from r some_from f.1)) in
      let par =
        parent_kept s to from around x n o.0
          (omega (arith, a, NotAbove-parent from up some_from f.2)) in
      (
        n,
        (
          omega (arith, par, a),
          omega (arith, same, b),
          omega (arith, same, d),
          omega (arith, same, e),
        ),
        Linked-kept x r f.0 f.1 o.1 hr,
        LinkedAbove-kept up x p f.0 f.2 o.2 hup,
      )
  LinkedAbove-kept (from_right l x k up) child p c f o (n, (a, b, d, e), hl, hup) =
      let same =
        children_kept s to from around x n o.0 (omega (arith, b, offset-NotIn from l some_from f.1))
          (omega (arith, d, c)) in
      let par =
        parent_kept s to from around x n o.0
          (omega (arith, a, NotAbove-parent from up some_from f.2)) in
      (
        n,
        (
          omega (arith, par, a),
          omega (arith, same, b),
          omega (arith, same, d),
          omega (arith, same, e),
        ),
        Linked-kept x l f.0 f.1 o.1 hl,
        LinkedAbove-kept up x p f.0 f.2 o.2 hup,
      )

  LinkedAbove-moved :
      (up : Above ℕ)
      → s.parent from ≡ parent_of up
      → NotAbove from up
      → NotAbove to up
      → LinkedAbove s up from
      → LinkedAbove s' up to
  LinkedAbove-moved top p f o h = root_moved s to from around p
  LinkedAbove-moved (from_left up x k r) p f o (n, (a, b, d, e), hr, hup) =
      let (height, (left, _)) = parent_moved s to from around x n (sym p) in
      let links = left b (omega (arith, d, offset-NotIn from r some_from f.1)) in
      let par =
        parent_kept s to from around x n o.0
          (omega (arith, a, NotAbove-parent from up some_from f.2)) in
      (
        n,
        (omega (arith, par, a), links.0, omega (arith, links, d), omega (arith, height, e)),
        Linked-kept x r f.0 f.1 o.1 hr,
        LinkedAbove-kept up x (omega (arith, p, n)) f.0 f.2 o.2 hup,
      )
  LinkedAbove-moved (from_right l x k up) p f o (n, (a, b, d, e), hl, hup) =
      let (height, (_, right)) = parent_moved s to from around x n (sym p) in
      let links = right (omega (arith, b, offset-NotIn from l some_from f.1)) d in
      let par =
        parent_kept s to from around x n o.0
          (omega (arith, a, NotAbove-parent from up some_from f.2)) in
      (
        n,
        (omega (arith, par, a), omega (arith, links, b), links.1, omega (arith, height, e)),
        Linked-kept x l f.0 f.1 o.1 hl,
        LinkedAbove-kept up x (omega (arith, p, n)) f.0 f.2 o.2 hup,
      )

-- Where the links of the block are those of a tree of offsets, and neither another node of it has
-- the offset `from` nor any the offset `to`, and `to` is no null pointer, then after
-- scoutfs_avl_relocate the links are those of the same tree with `to` in the place of `from`.
pub avl_relocate-Represents :
    (s : AvlLinks) (to : ℕ) (up : Above ℕ) (l : Avl ℕ) (from h : ℕ) (r : Avl ℕ)
    → Represents s (whole up (node l from h r))
    → to ≢ 0
    → to ≢ from
    → NotAbove from up × NotIn from l × NotIn from r
    → NotAbove to up × NotIn to l × NotIn to r
    → Represents (avl_relocate s to from) (moved_to to up (node l from h r))
unfolding moved_to with_container
avl_relocate-Represents s to up l from h r rep some_to other (fup, fl, fr) (oup, ol, or) =
    let (above, (n, (p, a, b, c), hl, hr)) = (whole-Linked s up (node l from h r)).0 rep in
    let around : Around s to from = record {
      some_to = some_to;
      some_from = n;
      other = other;
      up_child =
          subst (λ q. q ≢ 0 → (s.left q ≡ from) ⊎ (s.right q ≡ from)) (sym p)
            (child_of_parent s up from above);
      up_from = omega (arith, p, NotAbove-parent from up n fup);
      up_to = omega (arith, p, NotAbove-parent to up some_to oup);
      left_child = subst (λ q. q ≢ 0 → s.parent q ≡ from) (sym a) (parent_of_child s from l hl);
      left_from = omega (arith, a, offset-NotIn from l n fl);
      left_to = omega (arith, a, offset-NotIn to l some_to ol);
      right_child = subst (λ q. q ≢ 0 → s.parent q ≡ from) (sym b) (parent_of_child s from r hr);
      right_from = omega (arith, b, offset-NotIn from r n fr);
      right_to = omega (arith, b, offset-NotIn to r some_to or);
    } in
    let at_to = moved s to from around in
    (whole-Linked (avl_relocate s to from) up (node l to h r)).1 (
      LinkedAbove-moved s to from around up p fup oup above,
      (
        some_to,
        (
          omega (arith, at_to, p),
          omega (arith, at_to, a),
          omega (arith, at_to, b),
          omega (arith, at_to, c),
        ),
        Linked-child s to from around l (inl (sym a)) fl ol hl,
        Linked-child s to from around r (inr (sym b)) fr or hr,
      ),
    )
