-- ===== src/Key/Tests.antt =====
-- The theorems on keys at concrete keys.
use scoutfs_kmod_dev.Base.{◌+◌, ◌%◌, ◌^◌, ◌≤◌, ◌≡◌, ◌≢◌, ◌↔◌, compare, Ordering, arith, refl}
use scoutfs_kmod_dev.Key.{
  Key, key_compare, key_compare_ranges, key_inc, key_dec, key_set_zeros, key_set_ones,
}
use scoutfs_kmod_dev.Key.Order.{IsKey, rank, key_compare-rank, key_compare_ranges-eq_iff}
use scoutfs_kmod_dev.Key.Succ.{rank-key_inc, key_inc-key_dec, key_inc_next}

-- a key whose last two fields wrap when it steps
abbrev carries : Key
carries = record {
  zone = 3;
  first = 7;
  type = 2;
  second = 9;
  third = 0xffff_ffff_ffff_ffff;
  fourth = 0xff;
}

abbrev stepped : Key
stepped = record { zone = 3; first = 7; type = 2; second = 10; third = 0; fourth = 0 }

carries-IsKey : IsKey carries
carries-IsKey = omega arith

stepped-IsKey : IsKey stepped
stepped-IsKey = omega arith

key_inc-carries : key_inc carries ≡ stepped
unfolding key_inc
key_inc-carries = refl

-- The step from all ones wraps to all zeros.
key_inc_wraps : key_inc key_set_ones ≡ key_set_zeros
unfolding key_inc key_set_ones key_set_zeros
key_inc_wraps = refl

key_compare-rank_example : key_compare carries stepped ≡ compare (rank carries) (rank stepped)
key_compare-rank_example = key_compare-rank carries stepped carries-IsKey stepped-IsKey

key_compare_ranges-eq_iff_example :
    (key_compare_ranges carries stepped stepped stepped ≡ Ordering.eq) ↔ (
      (k : Key) × IsKey k
      × (rank carries ≤ rank k)
      × (rank k ≤ rank stepped)
      × (rank stepped ≤ rank k)
      × (rank k ≤ rank stepped))
key_compare_ranges-eq_iff_example =
    key_compare_ranges-eq_iff carries-IsKey stepped-IsKey stepped-IsKey stepped-IsKey (omega arith)
      (omega arith)

rank-key_inc_example : rank (key_inc carries) ≡ (rank carries + 1) % 2 ^ 216
rank-key_inc_example = rank-key_inc carries carries-IsKey

key_inc-key_dec_example : key_inc (key_dec stepped) ≡ stepped
key_inc-key_dec_example = key_inc-key_dec stepped stepped-IsKey

key_inc_next_example :
    (key_compare carries stepped ≡ Ordering.lt)
    ↔ (key_compare (key_inc carries) stepped ≢ Ordering.gt)
key_inc_next_example = key_inc_next carries stepped carries-IsKey stepped-IsKey (omega arith)
