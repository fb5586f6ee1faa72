-- ===== src/Spbm/Clear.antt =====
-- spbm_clear takes a number out of the set that spbm_test tells of.
use scoutfs_kmod_dev.Base.Rules.{if_rule}
use scoutfs_kmod_dev.Base.{
  ℕ, ◌≡◌, ◌%◌, ◌/◌, ◌^◌, ◌==◌, if◌then◌else◌, true, false, none, some, arith, refl, sym,
  Option-cases, inl, inr, subst,
}
use scoutfs_kmod_dev.RbTree.{in_order, Sorted, RbOps, IsRbOps, find, write}
use scoutfs_kmod_dev.RbTree.Order.{write-Sorted}
use scoutfs_kmod_dev.RbTree.Search.{find-write, find-erase, erase-Sorted}
use scoutfs_kmod_dev.Spbm.{Bitmap, Spbm, SpbmNode, index_of, calc_index_nr, find_node, spbm_clear}
use scoutfs_kmod_dev.Spbm.Store.{IsBitmap, IsSpbm, spbm_test-bit_of, Clears}

module _ {B : Type 0} (bitmap : Bitmap B) (rb : RbOps (SpbmNode B)) (bits : IsBitmap bitmap)
    (laws : IsRbOps index_of rb) where
  abbrev clearing : ℕ → SpbmNode B → SpbmNode B
  clearing nr sn = record sn { bits = bitmap.clear nr sn.bits }

  clear_run :
      (t : Spbm B) (bit : ℕ) (sn : SpbmNode B)
      → find index_of t (bit / 2 ^ 7) ≡ some sn
      → spbm_clear bitmap rb t bit ≡ (
          if bitmap.empty (clearing (bit % 2 ^ 7) sn).bits
          then rb.erase
              (write index_of t (bit / 2 ^ 7) (clearing (bit % 2 ^ 7)))
              (clearing (bit % 2 ^ 7) sn)
          else write index_of t (bit / 2 ^ 7) (clearing (bit % 2 ^ 7)))
  unfolding spbm_clear find_node calc_index_nr
  clear_run t bit sn found = ground (arith, found)

  nothing_run :
      (t : Spbm B) (bit : ℕ) → find index_of t (bit / 2 ^ 7) ≡ none → spbm_clear bitmap rb t bit ≡ t
  unfolding spbm_clear find_node calc_index_nr
  nothing_run t bit missing = ground (arith, missing)

  module _ (t : Spbm B) (bit : ℕ) (sn : SpbmNode B) (h : IsSpbm bitmap t)
      (found : find index_of t (bit / 2 ^ 7) ≡ some sn) where
    abbrev nr : ℕ
    nr = bit % 2 ^ 7

    abbrev written : Spbm B
    written = write index_of t (bit / 2 ^ 7) (clearing nr)

    written-Sorted : Sorted index_of (in_order written)
    written-Sorted = write-Sorted index_of t (bit / 2 ^ 7) (clearing nr) (λ _. refl) h.sorted

    abbrev find_written :
        (k : ℕ)
        → find index_of written k ≡ elim (find index_of t k) [
          | none ↦ none
          | some a ↦ some (if k == bit / 2 ^ 7 then clearing nr a else a)
        ]
    find_written k = find-write index_of t (bit / 2 ^ 7) (clearing nr) k (λ _. refl)

    written_found : find index_of written (bit / 2 ^ 7) ≡ some (clearing nr sn)
    written_found = ground (arith, find_written (bit / 2 ^ 7), found)

    clear_some : bitmap.empty (clearing nr sn).bits ≡ false → Clears bitmap rb t bit written
    clear_some e = (
      record {
        sorted = written-Sorted;
        some_bit = λ k a q. ground (arith, find_written k, q, h.some_bit k a, found, e);
      },
      λ b. ground (
        arith,
        spbm_test-bit_of bitmap rb written b,
        spbm_test-bit_of bitmap rb t b,
        find_written (b / 2 ^ 7),
        found,
        bits.test_clear nr (b % 2 ^ 7) sn.bits (omega arith) (omega arith),
      ),
    )

    clear_last :
        bitmap.empty (clearing nr sn).bits ≡ true
        → Clears bitmap rb t bit (rb.erase written (clearing nr sn))
    clear_last e =
        let gone = rb.erase written (clearing nr sn) in
        let find_gone =
          find-erase index_of rb laws written (bit / 2 ^ 7) (clearing nr sn) written-Sorted
            written_found in
        (
          record {
            sorted =
                erase-Sorted index_of rb laws written (bit / 2 ^ 7) (clearing nr sn) written-Sorted
                  written_found;
            some_bit =
                λ k a q. ground (arith, find_gone k, find_written k, q, h.some_bit k a, found);
          },
          λ b. ground (
            arith,
            spbm_test-bit_of bitmap rb gone b,
            spbm_test-bit_of bitmap rb t b,
            find_gone (b / 2 ^ 7),
            find_written (b / 2 ^ 7),
            found,
            bits.test_clear nr (b % 2 ^ 7) sn.bits (omega arith) (omega arith),
            (bits.empty_iff (clearing nr sn).bits).0 e (b % 2 ^ 7) (omega arith),
          ),
        )

    clear_found : Clears bitmap rb t bit (spbm_clear bitmap rb t bit)
    clear_found = subst (Clears bitmap rb t bit) (sym (clear_run t bit sn found)) (
        if_rule (Clears bitmap rb t bit) (bitmap.empty (clearing nr sn).bits)
          (rb.erase written (clearing nr sn)) written clear_last clear_some)

  clear_missing :
      (t : Spbm B) (bit : ℕ)
      → IsSpbm bitmap t
      → find index_of t (bit / 2 ^ 7) ≡ none
      → Clears bitmap rb t bit (spbm_clear bitmap rb t bit)
  clear_missing t bit h missing =
      subst (Clears bitmap rb t bit) (sym (nothing_run t bit missing))
        (h, λ b. ground (arith, spbm_test-bit_of bitmap rb t b, missing))

  -- On a bitmap that is in order, after spbm_clear the number tests false and every other number as
  -- before, and the bitmap is in order.
  pub spbm_clear-Clears :
      (t : Spbm B) (bit : ℕ) → IsSpbm bitmap t → Clears bitmap rb t bit (spbm_clear bitmap rb t bit)
  spbm_clear-Clears t bit h = elim (Option-cases (find index_of t (bit / 2 ^ 7))) [
    | inl q ↦ clear_missing t bit h q
    | inr (sn, q) ↦ clear_found t bit sn h q
  ]
