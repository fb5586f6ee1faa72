-- ===== src/Key.antt =====
-- key.h and cmp.h: the item keys that every index of the system is ordered by.
pub mod Order
pub mod Succ
mod Tests
use scoutfs_kmod_dev.Base.{
  ℕ, ◌+◌, ◌%◌, ◌==◌, ltb, if◌then◌else◌, Bool, ◌&&◌, Option, none, some, Ordering, u8, u64, add64,
  sub64,
}

-- struct scoutfs_key, its little-endian words as the numbers they stand for
pub record Key : Type 0 where
  pub zone : ℕ
  pub first : ℕ
  pub type : ℕ
  pub second : ℕ
  pub third : ℕ
  pub fourth : ℕ

-- -1, 0 and 1 are `lt`, `eq` and `gt`.
unfoldable pub scoutfs_cmp : ℕ → ℕ → Ordering
scoutfs_cmp a b = if ltb a b then Ordering.lt else if ltb b a then Ordering.gt else Ordering.eq

-- `a ?: b` on a comparison's result
abbrev pub or_else : Ordering → Ordering → Ordering
or_else Ordering.eq b = b
or_else a _ = a

unfoldable pub key_set_zeros : Key
key_set_zeros = record { zone = 0; first = 0; type = 0; second = 0; third = 0; fourth = 0 }

unfoldable pub key_set_ones : Key
key_set_ones = record {
  zone = 0xff;
  first = 0xffff_ffff_ffff_ffff;
  type = 0xff;
  second = 0xffff_ffff_ffff_ffff;
  third = 0xffff_ffff_ffff_ffff;
  fourth = 0xff;
}

unfoldable pub key_is_zeros : Key → Bool
key_is_zeros k =
    k.zone == 0 && k.first == 0 && k.type == 0 && k.second == 0 && k.third == 0 && k.fourth == 0

unfoldable pub key_copy_or_zeros : Option Key → Key
unfolding key_set_zeros
key_copy_or_zeros none = key_set_zeros
key_copy_or_zeros (some src) = src

unfoldable pub key_compare : Key → Key → Ordering
unfolding scoutfs_cmp
key_compare a b = or_else (scoutfs_cmp a.zone b.zone) (
    or_else (scoutfs_cmp a.first b.first) (
      or_else (scoutfs_cmp a.type b.type) (
        or_else (scoutfs_cmp a.second b.second)
          (or_else (scoutfs_cmp a.third b.third) (scoutfs_cmp a.fourth b.fourth)))))

unfoldable pub key_compare_ranges : Key → Key → Key → Key → Ordering
key_compare_ranges a_start a_end b_start b_end = elim (key_compare a_end b_start) [
  | Ordering.lt ↦ Ordering.lt
  | _ ↦ elim (key_compare a_start b_end) [ Ordering.gt ↦ Ordering.gt | _ ↦ Ordering.eq ]
]

-- A step is taken where the one before it wrapped.
unfoldable pub key_inc : Key → Key
unfolding u8 add64
key_inc k =
    let k4 = record k { fourth = u8 (k.fourth + 1) } in
    let k3 = record k4 { third = add64 k4.third 1 } in
    let k2 = record k3 { second = add64 k3.second 1 } in
    let kt = record k2 { type = u8 (k2.type + 1) } in
    let k1 = record kt { first = add64 kt.first 1 } in
    let kz = record k1 { zone = u8 (k1.zone + 1) } in
    if k4.fourth == 0
    then (if k3.third == 0
        then (if k2.second == 0
            then (if kt.type == 0 then (if k1.first == 0 then kz else k1) else kt)
            else k2)
        else k3)
    else k4

unfoldable pub key_dec : Key → Key
unfolding u8 add64
key_dec k =
    let k4 = record k { fourth = u8 (k.fourth + 0xff) } in
    let k3 = record k4 { third = add64 k4.third 0xffff_ffff_ffff_ffff } in
    let k2 = record k3 { second = add64 k3.second 0xffff_ffff_ffff_ffff } in
    let kt = record k2 { type = u8 (k2.type + 0xff) } in
    let k1 = record kt { first = add64 kt.first 0xffff_ffff_ffff_ffff } in
    let kz = record k1 { zone = u8 (k1.zone + 0xff) } in
    if k4.fourth == 0xff
    then (if k3.third == 0xffff_ffff_ffff_ffff
        then (if k2.second == 0xffff_ffff_ffff_ffff
            then (if kt.type == 0xff
                then (if k1.first == 0xffff_ffff_ffff_ffff then kz else k1)
                else kt)
            else k2)
        else k3)
    else k4
