-- ===== src/Avl/Tests.antt =====
-- Runs of avl.c on trees of numbers, and its theorems at a concrete tree.
use scoutfs_kmod_dev.Base.{ℕ, ◌≡◌, [], ◌∷◌, arith, refl, u8, if◌then◌else◌, ◌==◌}
use scoutfs_kmod_dev.Avl.{
  Avl, nil, node, top, avl_search, search_from, avl_insert, insert_below, avl_delete, avl_splice,
  swap_with_successor, with_container, leftmost, rightmost, avl_next, avl_prev, avl_first, avl_last,
  moved_to, climb_right, climb_left, rebalance, rotate_imbalance, rotate_left, rotate_right,
  right_heavy, left_heavy, set_height, node_height, items,
}
use scoutfs_kmod_dev.Avl.Balance.{IsAvl}
use scoutfs_kmod_dev.Avl.Search.{cmp_to}
use scoutfs_kmod_dev.Avl.Insert.{Outcome, avl_search-Inserts}
use scoutfs_kmod_dev.Avl.Links.{AvlLinks, Represents, avl_relocate}
use scoutfs_kmod_dev.Avl.Relink.{avl_relocate-Represents}
use scoutfs_kmod_dev.Avl.Delete.{Deletes, avl_delete-Deletes}
use scoutfs_kmod_dev.Avl.Walk.{Next, Prev, avl_next-Next, avl_prev-Prev}

-- What a run of avl.c computes with, to be named on `unfolding` lines.
run_of_avl : Unit {0}
unfolding avl_search search_from avl_insert insert_below avl_delete avl_splice swap_with_successor
    with_container leftmost rightmost avl_next avl_prev avl_first avl_last moved_to climb_right
    climb_left rebalance rotate_imbalance rotate_left rotate_right right_heavy left_heavy set_height
    node_height u8
run_of_avl = tt

abbrev self : ℕ → ℕ
self n = n

-- what btree.c does to add an item
abbrev add : Avl ℕ → ℕ → Avl ℕ
add t n = let s = avl_search (cmp_to self n) t in avl_insert s.par n s.cmp

abbrev small : Avl ℕ
small = node (node nil 1 1 nil) 5 3 (node nil 7 2 (node nil 9 1 nil))

-- Growing keys are rotated into a balanced tree.
adds_rotate : add (add (add nil 1) 2) 3 ≡ node (node nil 1 1 nil) 2 2 (node nil 3 1 nil)
unfolding run_of_avl
adds_rotate = refl

-- The deleted root's place is its successor's.
delete_root : avl_delete top small ≡ node (node nil 1 1 nil) 7 2 (node nil 9 1 nil)
unfolding run_of_avl
delete_root = refl

first_and_last :
    ((avl_first small).tree ≡ node nil 1 1 nil) × ((avl_last small).tree ≡ node nil 9 1 nil)
unfolding run_of_avl
first_and_last = (refl, refl)

relocates : items (moved_to 6 top small) ≡ 1 ∷ 6 ∷ 7 ∷ 9 ∷ []
unfolding run_of_avl
relocates = refl

small-IsAvl : IsAvl small
unfolding node_height
small-IsAvl = omega arith

avl_search-Inserts_example : Outcome self small 8 (avl_search (cmp_to self 8) small)
avl_search-Inserts_example = avl_search-Inserts self small 8 small-IsAvl (omega arith) (omega arith)

avl_delete-Deletes_example :
    Deletes top (node nil 1 1 nil) (node nil 7 2 (node nil 9 1 nil)) (avl_delete top small)
avl_delete-Deletes_example =
    avl_delete-Deletes top (node nil 1 1 nil) 5 3 (node nil 7 2 (node nil 9 1 nil)) small-IsAvl
      (omega arith)

avl_next-Next_example : Next small (1 ∷ 5 ∷ []) (7 ∷ 9 ∷ []) (avl_next top small)
avl_next-Next_example = avl_next-Next top (node nil 1 1 nil) 5 3 (node nil 7 2 (node nil 9 1 nil))

avl_prev-Prev_example : Prev small (1 ∷ []) (5 ∷ 7 ∷ 9 ∷ []) (avl_prev top small)
avl_prev-Prev_example = avl_prev-Prev top (node nil 1 1 nil) 5 3 (node nil 7 2 (node nil 9 1 nil))

-- the links of `small` below a root, whose node 5 is copied to 6
abbrev small_links : AvlLinks
small_links = record {
  root = 5;
  parent = λ n. if n == 1 then 5 else if n == 7 then 5 else if n == 9 then 7 else 0;
  left = λ n. if n == 5 then 1 else 0;
  right = λ n. if n == 5 then 7 else if n == 7 then 9 else 0;
  height = λ n. if n == 5 then 3 else if n == 7 then 2 else 1;
}

small-Represents : Represents small_links small
small-Represents = ground arith

avl_relocate-Represents_example :
    Represents
      (avl_relocate small_links 6 5)
      (node (node nil 1 1 nil) 6 3 (node nil 7 2 (node nil 9 1 nil)))
unfolding moved_to with_container
avl_relocate-Represents_example =
    avl_relocate-Represents small_links 6 top (node nil 1 1 nil) 5 3
      (node nil 7 2 (node nil 9 1 nil)) small-Represents (omega arith) (omega arith) (ground arith)
      (ground arith)
