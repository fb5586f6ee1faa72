-- ===== src/Key/Order.antt =====
-- Keys are ordered as the numbers whose digits are their fields.
use scoutfs_kmod_dev.Base.{
  ℕ, ◌+◌, ◌*◌, ◌^◌, ◌<◌, ◌≤◌, ◌≡◌, refl, ◌↔◌, compare, Ordering, u8_size, u64_size, arith,
}
use native.Mathlib.Decide.{dec_le}
use scoutfs_kmod_dev.Key.{Key, scoutfs_cmp, or_else, key_compare, key_compare_ranges}

-- Every field lies in its type's range.
pub record IsKey (k : Key) : Type 0 where
  pub zone_fits : k.zone < u8_size
  pub first_fits : k.first < u64_size
  pub type_fits : k.type < u8_size
  pub second_fits : k.second < u64_size
  pub third_fits : k.third < u64_size
  pub fourth_fits : k.fourth < u8_size

abbrev pub rank : Key → ℕ
rank k =
    ((((k.zone * 2 ^ 64 + k.first) * 2 ^ 8 + k.type) * 2 ^ 64 + k.second) * 2 ^ 64 + k.third)
      * 2 ^ 8
    + k.fourth

abbrev upper : ℕ → ℕ → ℕ
upper zone first = zone * 2 ^ 64 + first

abbrev typed : Key → ℕ
typed k = upper k.zone k.first * 2 ^ 8 + k.type

abbrev thirds : Key → ℕ
thirds k = (typed k * 2 ^ 64 + k.second) * 2 ^ 64 + k.third

pub scoutfs_cmp-compare : (a b : ℕ) → scoutfs_cmp a b ≡ compare a b
unfolding scoutfs_cmp
scoutfs_cmp-compare a b = ground arith

digit8 :
    (a b c d : ℕ)
    → c < u8_size
    → d < u8_size
    → or_else (compare a b) (compare c d) ≡ compare (a * 2 ^ 8 + c) (b * 2 ^ 8 + d)
digit8 a b c d h k = ground arith

pub digit64 :
    (a b c d : ℕ)
    → c < u64_size
    → d < u64_size
    → or_else (compare a b) (compare c d) ≡ compare (a * 2 ^ 64 + c) (b * 2 ^ 64 + d)
digit64 a b c d h k = ground arith

pub or_else_assoc : (a b c : Ordering) → or_else a (or_else b c) ≡ or_else (or_else a b) c
or_else_assoc a b c = ground arith

-- The ternary chain compares keys whose fields fit their types as the numbers that the fields
-- spell.
pub key_compare-rank : (a b : Key) → IsKey a → IsKey b → key_compare a b ≡ compare (rank a) (rank b)
unfolding key_compare
key_compare-rank a b ha hb =
    simp (scoutfs_cmp-compare, or_else_assoc)
      (rw
        (
          digit64 a.zone b.zone a.first b.first ha.first_fits hb.first_fits,
          digit8 (upper a.zone a.first) (upper b.zone b.first) a.type b.type ha.type_fits
              hb.type_fits,
          digit64 (typed a) (typed b) a.second b.second ha.second_fits hb.second_fits,
          digit64 (typed a * 2 ^ 64 + a.second) (typed b * 2 ^ 64 + b.second) a.third b.third
              ha.third_fits hb.third_fits,
          digit8 (thirds a) (thirds b) a.fourth b.fourth ha.fourth_fits hb.fourth_fits,
        )
        refl)

module _ {a_start a_end b_start b_end : Key} (ha : IsKey a_start) (he : IsKey a_end)
    (hb : IsKey b_start) (hf : IsKey b_end) where
  key_compare_ranges-eq :
      (key_compare_ranges a_start a_end b_start b_end ≡ Ordering.eq)
      ↔ ((rank b_start ≤ rank a_end) × (rank a_start ≤ rank b_end))
  unfolding key_compare_ranges
  key_compare_ranges-eq =
      ground (arith, key_compare-rank a_end b_start he hb, key_compare-rank a_start b_end ha hf)

  -- Where all fields fit their types, two ranges that each run from a first key to a last compare
  -- as equal exactly where some key lies in both.
  pub key_compare_ranges-eq_iff :
      rank a_start ≤ rank a_end
      → rank b_start ≤ rank b_end
      → (key_compare_ranges a_start a_end b_start b_end ≡ Ordering.eq) ↔ (
          (k : Key) × IsKey k
          × (rank a_start ≤ rank k)
          × (rank k ≤ rank a_end)
          × (rank b_start ≤ rank k)
          × (rank k ≤ rank b_end))
  key_compare_ranges-eq_iff va vb = (
    λ e.
        let h = key_compare_ranges-eq.0 e in
        elim (dec_le (rank a_start) (rank b_start)) [
          | yes p ↦ (b_start, hb, p, h.0, omega arith, vb)
          | no p ↦ (a_start, ha, omega arith, va, omega arith, h.1)
        ],
    λ m. key_compare_ranges-eq.1 (omega arith, omega arith),
  )
