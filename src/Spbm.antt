-- ===== src/Spbm.antt =====
-- spbm.c: a sparse bitmap of 64-bit numbers, an rbtree of nodes with 128 bits each.
pub mod Store
pub mod Set
pub mod Clear
pub mod Empty
pub mod Tests
use scoutfs_kmod_dev.Base.{
  ℕ, ◌/◌, ◌%◌, ◌^◌, Bool, true, false, Option, none, some, Ret, ok, err, enomem, if◌then◌else◌,
}
use scoutfs_kmod_dev.RbTree.{Tree, leaf, node, RbOps, find, link, write}

-- the kernel's bitmaps of SPBM_BITS bits: a zeroed one, and set_bit, clear_bit, test_bit and
-- bitmap_empty
pub record Bitmap (B : Type 0) : Type 0 where
  pub zeros : B
  pub set : ℕ → B → B
  pub clear : ℕ → B → B
  pub test : ℕ → B → Bool
  pub empty : B → Bool

-- struct spbm_node; its rb_node is its place in the tree
pub record SpbmNode (B : Type 0) : Type 0 where
  pub index : ℕ
  pub bits : B

-- struct scoutfs_spbm, its root
abbrev pub Spbm : Type 0 → Type 0
Spbm B = Tree (SpbmNode B)

abbrev pub index_of : {B : Type 0} → SpbmNode B → ℕ
index_of sn = sn.index

-- calc_index_nr: the shift and the mask by ilog2 of 128
unfoldable pub calc_index_nr : ℕ → ℕ × ℕ
calc_index_nr bit = (bit / 2 ^ 7, bit % 2 ^ 7)

module _ {B : Type 0} (bitmap : Bitmap B) (rb : RbOps (SpbmNode B)) where
  abbrev pub spbm_init : Spbm B
  spbm_init = leaf

  -- The tree, which a new node may be part of, and the node that was found or made. `alloc` is the
  -- flag SPBM_FIND_ALLOC, `room` tells whether kzalloc succeeds.
  unfoldable pub find_node : Spbm B → ℕ → Bool → Bool → Spbm B × Option (SpbmNode B)
  find_node spbm index alloc room = elim (find index_of spbm index) [
    | some sn ↦ (spbm, some sn)
    | none ↦
        let sn : SpbmNode B = record { index = index; bits = bitmap.zeros } in
        if alloc
        then (if room then (rb.insert_color (link index_of spbm sn), some sn) else (spbm, none))
        else (spbm, none)
  ]

  unfoldable pub spbm_set : Bool → Spbm B → ℕ → Ret × Spbm B
  spbm_set room spbm bit =
      let (index, nr) = calc_index_nr bit in
      let (spbm', sn) = find_node spbm index true room in
      elim sn [
        | none ↦ (err enomem, spbm')
        | some _ ↦ (
          ok,
          write index_of spbm' index (λ (n : SpbmNode B). record n { bits = bitmap.set nr n.bits }),
        )
      ]

  unfoldable pub spbm_test : Spbm B → ℕ → Bool
  spbm_test spbm bit =
      let (index, nr) = calc_index_nr bit in
      let (_, sn) = find_node spbm index false false in
      elim sn [ none ↦ false | some n ↦ bitmap.test nr n.bits ]

  unfoldable pub spbm_clear : Spbm B → ℕ → Spbm B
  spbm_clear spbm bit =
      let (index, nr) = calc_index_nr bit in
      let (_, sn) = find_node spbm index false false in
      elim sn [
        | none ↦ spbm
        | some n ↦
            let clear_nr = λ (sn : SpbmNode B). record sn { bits = bitmap.clear nr sn.bits } in
            let spbm' = write index_of spbm index clear_nr in
            if bitmap.empty (clear_nr n).bits then rb.erase spbm' (clear_nr n) else spbm'
      ]

unfoldable pub spbm_empty : {B : Type 0} → Spbm B → Bool
spbm_empty leaf = true
spbm_empty (node _ _ _) = false
