-- ===== src/Spbm/Empty.antt =====
-- spbm_empty tells whether any number is in the set.
use mathlib.Core.Bool.{false≢true}
use scoutfs_kmod_dev.Base.{
  ℕ, ◌≡◌, ◌<◌, ◌+◌, ◌*◌, ◌/◌, ◌^◌, ◌%◌, ◌↔◌, true, false, some, arith, refl, sym, ◌∙◌, ap,
}
use scoutfs_kmod_dev.RbTree.{leaf, node, RbOps, find}
use scoutfs_kmod_dev.Spbm.{Bitmap, Spbm, SpbmNode, index_of, spbm_test, spbm_empty}
use scoutfs_kmod_dev.Spbm.Store.{IsBitmap, IsSpbm, bit_of, spbm_test-bit_of}

module _ {B : Type 0} (bitmap : Bitmap B) (rb : RbOps (SpbmNode B)) (bits : IsBitmap bitmap) where
  find-root :
      (l : Spbm B) (sn : SpbmNode B) (r : Spbm B) → find index_of (node l sn r) sn.index ≡ some sn
  unfolding find
  find-root l sn r = ground arith

  test-root :
      (l : Spbm B) (sn : SpbmNode B) (r : Spbm B) (n : ℕ)
      → n < 2 ^ 7
      → spbm_test bitmap rb (node l sn r) (sn.index * 2 ^ 7 + n) ≡ bitmap.test n sn.bits
  test-root l sn r n h =
      let b = sn.index * 2 ^ 7 + n in
      let index : b / 2 ^ 7 ≡ sn.index = omega (arith, h) in
      let nr : b % 2 ^ 7 ≡ n = omega (arith, h) in
      spbm_test-bit_of bitmap rb (node l sn r) b
      ∙ ap (λ i. bit_of bitmap (find index_of (node l sn r) i) b) index
      ∙ ap (λ o. bit_of bitmap o b) (find-root l sn r)
      ∙ ap (λ m. bitmap.test m sn.bits) nr

  -- A bitmap that is in order is empty by spbm_empty exactly where every number tests false.
  pub spbm_empty_iff :
      (t : Spbm B)
      → IsSpbm bitmap t
      → (spbm_empty t ≡ true) ↔ ((b : ℕ) → spbm_test bitmap rb t b ≡ false)
  unfolding spbm_empty find
  spbm_empty_iff leaf h = (λ _ b. spbm_test-bit_of bitmap rb leaf b, λ _. refl)
  spbm_empty_iff (node l sn r) h = (
    λ e. absurd (false≢true e),
    λ none_set. absurd (
        false≢true (
          sym (h.some_bit sn.index sn (find-root l sn r))
          ∙ (bits.empty_iff sn.bits).1
              (λ n k. sym (test-root l sn r n k) ∙ none_set (sn.index * 2 ^ 7 + n)))),
  )
