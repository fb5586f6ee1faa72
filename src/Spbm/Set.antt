-- ===== src/Spbm/Set.antt =====
-- spbm_set puts a number into the set that spbm_test tells of.

use scoutfs_kmod_dev.Base.{
  ℕ, ◌≡◌, ◌%◌, ◌/◌, ◌^◌, ◌==◌, if◌then◌else◌, Bool, true, false, none, some, arith, ok, err, enomem,
  refl, sym, Option-cases, Bool-cases, inl, inr, ◌≢◌, ◌<◌, subst,
}
use scoutfs_kmod_dev.RbTree.{in_order, Sorted, RbOps, IsRbOps, find, link, write}
use scoutfs_kmod_dev.RbTree.Order.{write-Sorted}
use scoutfs_kmod_dev.RbTree.Search.{find-write, find-insert, insert-Sorted}
use scoutfs_kmod_dev.Spbm.{
  Bitmap, Spbm, SpbmNode, index_of, calc_index_nr, find_node, spbm_set, spbm_test,
}
use scoutfs_kmod_dev.Spbm.Store.{IsBitmap, IsSpbm, spbm_test-bit_of, Sets}

module _ {B : Type 0} (bitmap : Bitmap B) (rb : RbOps (SpbmNode B)) (bits : IsBitmap bitmap)
    (laws : IsRbOps index_of rb) where
  abbrev setting : ℕ → SpbmNode B → SpbmNode B
  setting nr sn = record sn { bits = bitmap.set nr sn.bits }

  set_some : (nr : ℕ) (b : B) → nr < 2 ^ 7 → bitmap.empty (bitmap.set nr b) ≡ false
  set_some nr b h = elim (Bool-cases (bitmap.empty (bitmap.set nr b))) [
    | inl t ↦ ground (arith, (bits.empty_iff (bitmap.set nr b)).0 t nr h, bits.test_set nr nr b h h)
    | inr t ↦ t
  ]

  -- A bit of a node that is in the tree is set; `others` says of every other node that it has bits.
  write_set :
      (t : Spbm B) (bit : ℕ) (sn : SpbmNode B)
      → Sorted index_of (in_order t)
      → find index_of t (bit / 2 ^ 7) ≡ some sn
      → ((k : ℕ) (a : SpbmNode B)
          → find index_of t k ≡ some a
          → k ≢ bit / 2 ^ 7
          → bitmap.empty a.bits ≡ false)
      → IsSpbm bitmap (write index_of t (bit / 2 ^ 7) (setting (bit % 2 ^ 7)))
        × ((b : ℕ)
            → spbm_test bitmap rb (write index_of t (bit / 2 ^ 7) (setting (bit % 2 ^ 7))) b
              ≡ (if b == bit then true else spbm_test bitmap rb t b))
  write_set t bit sn h found others =
      let i = bit / 2 ^ 7 in
      let nr = bit % 2 ^ 7 in
      let t' = write index_of t i (setting nr) in
      (
        record {
          sorted = write-Sorted index_of t i (setting nr) (λ _. refl) h;
          some_bit = λ k a q. ground (
            arith,
            find-write index_of t i (setting nr) k (λ _. refl),
            q,
            others k a,
            set_some nr sn.bits,
            found,
          );
        },
        λ b. ground (
          arith,
          spbm_test-bit_of bitmap rb t' b,
          spbm_test-bit_of bitmap rb t b,
          find-write index_of t i (setting nr) (b / 2 ^ 7) (λ _. refl),
          found,
          bits.test_set nr (b % 2 ^ 7) sn.bits (omega arith) (omega arith),
        ),
      )

  set_run :
      (t : Spbm B) (bit : ℕ) (sn : SpbmNode B)
      → find index_of t (bit / 2 ^ 7) ≡ some sn
      → (room : Bool)
      → spbm_set bitmap rb room t bit ≡ (ok, write index_of t (bit / 2 ^ 7) (setting (bit % 2 ^ 7)))
  unfolding spbm_set find_node calc_index_nr
  set_run t bit sn found room = ground (arith, found)

  abbrev new_node : ℕ → SpbmNode B
  new_node i = record { index = i; bits = bitmap.zeros }

  new_run :
      (t : Spbm B) (bit : ℕ)
      → find index_of t (bit / 2 ^ 7) ≡ none
      → spbm_set bitmap rb true t bit ≡ (
        ok,
        write index_of
            (rb.insert_color (link index_of t (new_node (bit / 2 ^ 7))))
            (bit / 2 ^ 7)
            (setting (bit % 2 ^ 7)),
      )
  unfolding spbm_set find_node calc_index_nr
  new_run t bit missing = ground (arith, missing)

  full_run :
      (t : Spbm B) (bit : ℕ)
      → find index_of t (bit / 2 ^ 7) ≡ none
      → spbm_set bitmap rb false t bit ≡ (err enomem, t)
  unfolding spbm_set find_node calc_index_nr
  full_run t bit missing = ground (arith, missing)

  set_found :
      (t : Spbm B) (bit : ℕ) (sn : SpbmNode B)
      → IsSpbm bitmap t
      → find index_of t (bit / 2 ^ 7) ≡ some sn
      → (room : Bool) → Sets bitmap rb room t bit (spbm_set bitmap rb room t bit)
  set_found t bit sn h found room =
      subst (Sets bitmap rb room t bit) (sym (set_run t bit sn found room))
        (write_set t bit sn h.sorted found (λ k a q _. h.some_bit k a q))

  set_new :
      (t : Spbm B) (bit : ℕ)
      → IsSpbm bitmap t
      → find index_of t (bit / 2 ^ 7) ≡ none
      → (room : Bool) → Sets bitmap rb room t bit (spbm_set bitmap rb room t bit)
  set_new t bit h missing false =
      subst (Sets bitmap rb false t bit) (sym (full_run t bit missing)) (refl, refl, refl)
  set_new t bit h missing true =
      let i = bit / 2 ^ 7 in
      let sn = new_node i in
      let t1 = rb.insert_color (link index_of t sn) in
      let find1 = λ (k : ℕ). find-insert index_of rb laws t sn k h.sorted missing in
      let found : find index_of t1 i ≡ some sn = ground (arith, find1 i) in
      let (inv, tests) =
        write_set t1 bit sn (insert-Sorted index_of rb laws t sn h.sorted) found
          (λ k a q n. h.some_bit k a (ground (arith, find1 k, q, n))) in
      subst (Sets bitmap rb true t bit) (sym (new_run t bit missing)) (
        inv,
        λ b. ground (
          arith,
          tests b,
          spbm_test-bit_of bitmap rb t1 b,
          spbm_test-bit_of bitmap rb t b,
          find1 (b / 2 ^ 7),
          missing,
          bits.test_zeros (b % 2 ^ 7),
        ),
      )

  -- On a bitmap that is in order spbm_set either succeeds, and then the number and what tested true
  -- before test true, and no other number, and the bitmap is in order; or it fails with enomem,
  -- where no memory is left, and the bitmap is as it was.
  pub spbm_set-Sets :
      (room : Bool) (t : Spbm B) (bit : ℕ)
      → IsSpbm bitmap t
      → Sets bitmap rb room t bit (spbm_set bitmap rb room t bit)
  spbm_set-Sets room t bit h = elim (Option-cases (find index_of t (bit / 2 ^ 7))) [
    | inl q ↦ set_new t bit h q room
    | inr (sn, q) ↦ set_found t bit sn h q room
  ]
