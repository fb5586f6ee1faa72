-- ===== src/Key/Succ.antt =====
-- key_inc and key_dec step to the neighbouring key.
use scoutfs_kmod_dev.Base.{◌+◌, ◌^◌, ◌<◌, ◌%◌, ◌≡◌, ◌≢◌, Ordering, true, ◌↔◌, arith}
use scoutfs_kmod_dev.Key.{Key, key_inc, key_dec, key_compare, key_is_zeros, key_set_zeros}
use scoutfs_kmod_dev.Key.Order.{rank, IsKey, key_compare-rank}

-- On a key whose fields fit their types, key_inc adds one to the number that the key spells,
-- modulo 2^216: it carries from field to field and wraps from all ones to all zeros.
pub rank-key_inc : (k : Key) → IsKey k → rank (key_inc k) ≡ (rank k + 1) % 2 ^ 216
unfolding key_inc
rank-key_inc k h = ground arith

pub key_inc-IsKey : (k : Key) → IsKey k → IsKey (key_inc k)
unfolding key_inc
key_inc-IsKey k h = ground arith

-- key_dec undoes key_inc on every key whose fields fit their types, the last one included.
pub key_dec-key_inc : (k : Key) → IsKey k → key_dec (key_inc k) ≡ k
unfolding key_inc key_dec
key_dec-key_inc k h = ground arith

-- key_inc undoes key_dec on every key whose fields fit their types, zeros included.
pub key_inc-key_dec : (k : Key) → IsKey k → key_inc (key_dec k) ≡ k
unfolding key_inc key_dec
key_inc-key_dec k h = ground arith

-- Where all fields fit their types, a key that is below all ones is less than another exactly
-- where key_inc of it is not greater than the other: no key lies strictly between the two.
pub key_inc_next :
    (k j : Key)
    → IsKey k
    → IsKey j
    → rank k + 1 < 2 ^ 216
    → (key_compare k j ≡ Ordering.lt) ↔ (key_compare (key_inc k) j ≢ Ordering.gt)
key_inc_next k j hk hj h =
    let hi = key_inc-IsKey k hk in
    ground
      (arith, key_compare-rank k j hk hj, key_compare-rank (key_inc k) j hi hj, rank-key_inc k hk)

-- key_is_zeros holds of the key that key_set_zeros makes and of no other.
pub key_is_zeros_iff : (k : Key) → (key_is_zeros k ≡ true) ↔ (k ≡ key_set_zeros)
unfolding key_is_zeros key_set_zeros
key_is_zeros_iff k = ground arith
