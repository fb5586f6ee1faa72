-- ===== src/Btree/Index.antt =====
-- The tree of a block as the index of its items.
use scoutfs_kmod_dev.Btree.NewValue.{if_other, if_same}
use scoutfs_kmod_dev.Avl.Relocate.{moved_to-Keeps}
use scoutfs_kmod_dev.Avl.{node}
use scoutfs_kmod_dev.Base.{[], ◌∷◌}
use scoutfs_kmod_dev.Btree.Sorts.{Sorted_remove, Sorted_other, Sorted_replace, Sorted_agree}
use scoutfs_kmod_dev.Btree.{delete_node, relocate_node, item_off}
use scoutfs_kmod_dev.Btree.Leaf.{Live, Live_before, Live_more, Live-bound}
use mathlib.Core.List.{List}
use scoutfs_kmod_dev.Base.{
  ℕ, List, ◌↔◌, ◌<◌, ◌+◌, ◌++◌, ◌≡◌, ◌∷◌, if◌then◌else◌, arith, ◌==◌, ◌≢◌, inl, sym, subst, ◌∙◌, ap,
  inr, Bool-cases, ==_iff, refl,
}
use scoutfs_kmod_dev.Base.Lists.{length}
use scoutfs_kmod_dev.RbTree.{Sorted}
use scoutfs_kmod_dev.Avl.{Avl, items, avl_delete, moved_to, top, node, before, after}
use scoutfs_kmod_dev.Avl.Balance.{IsAvl}
use scoutfs_kmod_dev.Avl.Height.{offsets}
use scoutfs_kmod_dev.Avl.Delete.{avl_delete-Deletes}
use scoutfs_kmod_dev.Avl.Order.{items-whole, list_laws}
use scoutfs_kmod_dev.Btree.Nodes.{Among, Among-around, node_at-Points}

-- The tree has the offsets of the first `n` items, in the order of their keys.
pub record IsIndex (key : ℕ → ℕ) (n : ℕ) (root : Avl ℕ) : Type 0 where
  pub balanced : IsAvl root
  pub sorted : Sorted key (items root)
  pub members : (o : ℕ) → Among o (items root) ↔ Live n o
  pub counted : length (items root) ≡ n

pub length-around :
    (xs : List ℕ) (y : ℕ) (ys : List ℕ) → length (xs ++ y ∷ ys) ≡ length (xs ++ ys) + 1
length-around [] y ys = omega arith
length-around (x ∷ xs) y ys = let rest = length-around xs y ys in omega (arith, rest)

delete_node_lem :
    (root : Avl ℕ) (off : ℕ)
    → IsAvl root
    → length (items root) < offsets
    → Among off (items root)
    → (xs : List ℕ) × (ys : List ℕ) × (items root ≡ xs ++ off ∷ ys)
      × (items (delete_node root off) ≡ xs ++ ys)
      × IsAvl (delete_node root off)
delete_node_lem root off avl small m = elim (node_at-Points top root off) [
  | inl (_, absent) ↦ absurd (absent m)
  | inr (up, l, h, r, found, is) ↦
      let d =
        avl_delete-Deletes up l off h r (subst IsAvl (sym is) avl)
          (subst (λ t. length (items t) < offsets) (sym is) small) in
      let run : delete_node root off ≡ avl_delete up (node l off h r) =
        rw (delete_node, found) refl in
      (
        before up ++ items l,
        items r ++ after up,
        ap items (sym is) ∙ items-whole up (node l off h r) ∙ simp list_laws,
        ap items run ∙ d.rest ∙ simp list_laws,
        subst IsAvl (sym run) d.balanced,
      )
]

relocate_node_lem :
    (root : Avl ℕ) (to from : ℕ)
    → IsAvl root
    → Among from (items root)
    → (xs : List ℕ) × (ys : List ℕ) × (items root ≡ xs ++ from ∷ ys)
      × (items (relocate_node root to from) ≡ xs ++ to ∷ ys)
      × IsAvl (relocate_node root to from)
relocate_node_lem root to from avl m = elim (node_at-Points top root from) [
  | inl (_, absent) ↦ absurd (absent m)
  | inr (up, l, h, r, found, is) ↦
      let (order, balance) = moved_to-Keeps to up l from h r in
      let run : relocate_node root to from ≡ moved_to to up (node l from h r) =
        rw (relocate_node, found) refl in
      (
        before up ++ items l,
        items r ++ after up,
        ap items (sym is) ∙ items-whole up (node l from h r) ∙ simp list_laws,
        ap items run ∙ order ∙ simp list_laws,
        subst IsAvl (sym run) (balance (subst IsAvl (sym is) avl)),
      )
]

module _ (key key' : ℕ → ℕ) (n : ℕ) (root : Avl ℕ) (off : ℕ) (h : IsIndex key (n + 1) root)
    (live : Live (n + 1) off) (small : n + 1 < offsets)
    (moved : (o : ℕ) → Live n o → key' o ≡ key (if o == off then item_off n else o)) where
  left :
      (xs ys : List ℕ)
      → items root ≡ xs ++ off ∷ ys
      → (o : ℕ) → Among o (xs ++ ys) ↔ (Live (n + 1) o × (o ≢ off))
  left xs ys e o =
      let s = subst (Sorted key) e h.sorted in
      (
        λ m. (
          (h.members o).0 (subst (Among o) (sym e) ((Among-around o off xs ys).1 (inr m))),
          λ f. Sorted_other key xs off ys s o m (ap key f),
        ),
        λ (l, d). elim ((Among-around o off xs ys).0 (subst (Among o) e ((h.members o).1 l))) [
          | inl f ↦ absurd (d f)
          | inr m ↦ m
        ],
      )

  stays : (o : ℕ) → Live n o → o ≢ off → key' o ≡ key o
  stays o l d = moved o l ∙ ap key (if_other _ _ o off d)

  pub delete-IsIndex : item_off n ≡ off → IsIndex key' n (delete_node root off)
  delete-IsIndex e =
      let (xs, ys, s, t, avl) =
        delete_node_lem root off h.balanced (omega (arith, h.counted, small))
          ((h.members off).1 live) in
      let mem : (o : ℕ) → Among o (xs ++ ys) ↔ Live n o = λ o. (
        λ m. let (l, d) = (left xs ys s o).0 m in Live_before n o l (λ f. d (f ∙ e)),
        λ l. (left xs ys s o).1 (Live_more n o l, λ f. omega (arith, Live-bound n o l, f, e)),
      ) in
      record {
        balanced = avl;
        sorted = subst (Sorted key') (sym t) (
            Sorted_agree key key' (xs ++ ys) (λ o m. stays o ((mem o).0 m) ((left xs ys s o).0 m).1)
              (Sorted_remove key xs off ys (subst (Sorted key) s h.sorted)));
        members = λ o. subst (λ zs. Among o zs ↔ Live n o) (sym t) (mem o);
        counted = omega (arith, ap length t, ap length s, length-around xs off ys, h.counted);
      }

  pub relocate-IsIndex :
      item_off n ≢ off → IsIndex key' n (relocate_node (delete_node root off) off (item_off n))
  relocate-IsIndex e =
      let end = item_off n in
      let (xs, ys, s, t, avl) =
        delete_node_lem root off h.balanced (omega (arith, h.counted, small))
          ((h.members off).1 live) in
      let live_end : Live (n + 1) end = (n, omega arith, refl) in
      let live_off : Live n off = Live_before n off live (λ f. e (sym f)) in
      let (us, vs, s', t', avl') =
        relocate_node_lem (delete_node root off) off end avl
          (subst (Among end) (sym t) ((left xs ys s end).1 (live_end, e))) in
      let sorted' : Sorted key (us ++ end ∷ vs) =
        subst (Sorted key) (sym t ∙ s')
          (Sorted_remove key xs off ys (subst (Sorted key) s h.sorted)) in
      let others : (o : ℕ) → Among o (us ++ vs) ↔ (Live n o × (o ≢ off)) = λ o. (
        λ m.
            let (l, d) =
              (left xs ys s o).0
                (subst (Among o) (sym s' ∙ t) ((Among-around o end us vs).1 (inr m))) in
            (Live_before n o l (λ f. Sorted_other key us end vs sorted' o m (ap key f)), d),
        λ (l, d).
            elim ((Among-around o end us vs).0
              (subst (Among o) (sym t ∙ s') ((left xs ys s o).1 (Live_more n o l, d)))) [
                | inl f ↦ absurd (omega (arith, Live-bound n o l, f))
                | inr m ↦ m
              ],
      ) in
      record {
        balanced = avl';
        sorted = subst (Sorted key') (sym t') (
            Sorted_replace key key' us end off vs (moved off live_off ∙ ap key (if_same _ _ off))
              (λ o m. let (l, d) = (others o).0 m in stays o l d) sorted');
        members = λ o.
            subst (λ zs. Among o zs ↔ Live n o) (sym t')
              (
                λ m. elim ((Among-around o off us vs).0 m) [
                  | inl f ↦ subst (Live n) (sym f) live_off
                  | inr k ↦ ((others o).0 k).0
                ],
                λ l. (Among-around o off us vs).1 (elim (Bool-cases (o == off)) [
                  | inl f ↦ inl ((==_iff o off).0 f)
                  | inr f ↦ inr ((others o).1 (l, ground (arith, f)))
                ]),
              );
        counted = omega (
          arith,
          ap length t,
          ap length s,
          ap length t',
          ap length s',
          length-around xs off ys,
          length-around us end vs,
          length-around us off vs,
          h.counted,
        );
      }
