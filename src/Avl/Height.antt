-- ===== src/Avl/Height.antt =====
-- How high a balanced tree is: a block has fewer nodes than a 16-bit offset can tell apart, so the
-- height stays far below the end of its byte.
use native.Mathlib.Decide.{dec_lt}
use scoutfs_kmod_dev.Base.{ℕ, zero, suc, ◌+◌, ◌*◌, ◌^◌, ◌≤◌, ◌<◌, arith, ◌∷◌}
use scoutfs_kmod_dev.Base.Lists.{length, length-append}
use scoutfs_kmod_dev.Avl.{Avl, nil, node, node_height, items}
use scoutfs_kmod_dev.Avl.Balance.{IsAvl}

abbrev pub offsets : ℕ
offsets = 2 ^ 16

module _ {A : Type 0} where
  pow-length : (t : Avl A) (n : ℕ) → IsAvl t → 2 * n ≤ node_height t → 2 ^ n ≤ length (items t) + 1
  unfolding node_height
  pow-length t zero h p = omega arith
  pow-length nil (suc n) h p = absurd (omega (arith, p))
  pow-length (node l x k r) (suc n) h p =
      let left = pow-length l n h.3 (omega (arith, h, p)) in
      let right = pow-length r n h.4 (omega (arith, h, p)) in
      grind (arith, left, right, length-append (items l) (x ∷ items r))

  -- A balanced tree of fewer than 2^16 nodes is at most 33 high.
  pub height-bound : (t : Avl A) → IsAvl t → length (items t) < offsets → node_height t ≤ 33
  height-bound t h p = elim (dec_lt 33 (node_height t)) [
    | no q ↦ omega (arith, q)
    | yes q ↦ absurd (omega (arith, p, pow-length t 17 h (omega (arith, q))))
  ]
