-- ===== src/Spbm/Store.antt =====
-- What the sparse bitmap relies on, and its invariant.
use scoutfs_kmod_dev.Base.{
  Ret, ok, err, enomem, ℕ, ◌<◌, ◌≡◌, ◌/◌, ◌%◌, ◌^◌, ◌==◌, if◌then◌else◌, Bool, true, false, Option,
  none, some, ◌↔◌, arith, Option-cases, inl, inr, Ret, err, enomem,
}
use scoutfs_kmod_dev.RbTree.{in_order, Sorted, find, RbOps}
use scoutfs_kmod_dev.Spbm.{Bitmap, Spbm, SpbmNode, index_of, calc_index_nr, spbm_test, find_node}

-- The bit operations act on one bit; a bitmap is empty where all its bits are clear.
pub record IsBitmap {B : Type 0} (bitmap : Bitmap B) : Type 0 where
  pub test_zeros : (n : ℕ) → bitmap.test n bitmap.zeros ≡ false
  pub test_set :
      (n m : ℕ) (b : B)
      → n < 2 ^ 7
      → m < 2 ^ 7
      → bitmap.test m (bitmap.set n b) ≡ (if m == n then true else bitmap.test m b)
  pub test_clear :
      (n m : ℕ) (b : B)
      → n < 2 ^ 7
      → m < 2 ^ 7
      → bitmap.test m (bitmap.clear n b) ≡ (if m == n then false else bitmap.test m b)
  pub empty_iff :
      (b : B) → (bitmap.empty b ≡ true) ↔ ((n : ℕ) → n < 2 ^ 7 → bitmap.test n b ≡ false)

module _ {B : Type 0} (bitmap : Bitmap B) where
  -- The nodes stand in the order of their indices, and each has a bit that is set.
  pub record IsSpbm (spbm : Spbm B) : Type 0 where
    pub sorted : Sorted index_of (in_order spbm)
    pub some_bit :
        (k : ℕ) (sn : SpbmNode B) → find index_of spbm k ≡ some sn → bitmap.empty sn.bits ≡ false

  -- the bit of a number in the node that was found for it
  abbrev pub bit_of : Option (SpbmNode B) → ℕ → Bool
  bit_of none b = false
  bit_of (some sn) b = bitmap.test (b % 2 ^ 7) sn.bits

  pub spbm_test-bit_of :
      (rb : RbOps (SpbmNode B)) (spbm : Spbm B) (b : ℕ)
      → spbm_test bitmap rb spbm b ≡ bit_of (find index_of spbm (b / 2 ^ 7)) b
  unfolding spbm_test find_node calc_index_nr
  spbm_test-bit_of rb spbm b = elim (Option-cases (find index_of spbm (b / 2 ^ 7))) [
    | inl q ↦ ground (arith, q)
    | inr (sn, q) ↦ ground (arith, q)
  ]

module _ {B : Type 0} (bitmap : Bitmap B) (rb : RbOps (SpbmNode B)) where
  -- The number is in the set on success; without memory nothing changes.
  abbrev pub Sets : Bool → Spbm B → ℕ → Ret × Spbm B → Type 0
  Sets room before bit (ok, after) =
      IsSpbm bitmap after
      × ((b : ℕ)
          → spbm_test bitmap rb after b ≡ (if b == bit then true else spbm_test bitmap rb before b))
  Sets room before bit (err e, after) = (after ≡ before) × (e ≡ enomem) × (room ≡ false)

  -- The number is not in the set.
  abbrev pub Clears : Spbm B → ℕ → Spbm B → Type 0
  Clears before bit after =
      IsSpbm bitmap after
      × ((b : ℕ)
          → spbm_test bitmap rb after b
            ≡ (if b == bit then false else spbm_test bitmap rb before b))
