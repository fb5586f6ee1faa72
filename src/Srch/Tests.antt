-- ===== src/Srch/Tests.antt =====
-- A run of the encoding, and its theorems at concrete entries.
use scoutfs_kmod_dev.Base.{
  compare, ℕ, ◌-◌, zero, suc, ◌+◌, ◌/◌, ◌^◌, ◌<◌, ◌≤◌, ◌≡◌, ◌⊎◌, ◌↔◌, ◌==◌, Bool-cases, inl, inr,
  sub64, if◌then◌else◌, arith, refl,
}
use scoutfs_kmod_dev.Srch.{
  sre_cmp, SrchEntry, Memory, decode_entry, encode_entry, encode_diffs, encode_u64, encode_bytes,
  shift_sign,
}
use scoutfs_kmod_dev.Srch.Order.{entry_rank, sre_cmp-rank}
use scoutfs_kmod_dev.Srch.Tree.{Bounds, Spells, height_for_blk-Spells}
use scoutfs_kmod_dev.Srch.Encode.{IsFls, IsEntry}
use scoutfs_kmod_dev.Srch.Entries.{decode_entry-encode_entry, encode_entry-bounds}

-- the number of bits of a word of at most so many
unfoldable bits : ℕ → ℕ → ℕ
bits zero x = 0
bits (suc n) x = let rest = bits n (x / 2) in if x == 0 then 0 else suc rest

pow_pos : (n : ℕ) → 0 < 2 ^ n
pow_pos zero = omega arith
pow_pos (suc n) = omega (arith, pow_pos n)

bits_fit : (k x n : ℕ) → x < 2 ^ k → (bits k x ≤ n) ↔ (x < 2 ^ n)
unfolding bits
bits_fit zero x n h = let p = pow_pos n in (λ _. omega (arith, h, p), λ _. omega arith)
bits_fit (suc k) x zero h = ground (arith, h)
bits_fit (suc k) x (suc n) h =
    let p = pow_pos n in
    let rest = bits_fit k (x / 2) n (omega (arith, h)) in
    elim (Bool-cases (x == 0)) [
      | inl e ↦
          let z : x ≡ 0 = ground (arith, e) in (λ _. omega (arith, z, p), λ _. ground (arith, e))
      | inr e ↦ (
        λ q. omega (arith, rest.0 (ground (arith, e, q))),
        λ q. let r = rest.1 (omega (arith, q)) in ground (arith, e, r),
      )
    ]

abbrev fls : ℕ → ℕ
fls x = bits 64 x

fls-IsFls : IsFls fls
fls-IsFls = record { fits = λ x n h. bits_fit 64 x n h }

abbrev zeros : Memory
zeros _ = 0

abbrev first : SrchEntry
first = record { hash = 70000; ino = 5; id = 9 }

abbrev second : SrchEntry
second = record { hash = 70300; ino = 3; id = 9 }

-- 300 is 600 with its sign and takes two bytes, minus two takes one, and no difference takes none
second_bytes : (encode_entry fls zeros 10 second first).1 ≡ 5
unfolding encode_entry encode_diffs encode_u64 encode_bytes shift_sign sub64 bits
second_bytes = refl

first-IsEntry : IsEntry first
first-IsEntry = record { hash_fits = omega arith; ino_fits = omega arith; id_fits = omega arith }

second-IsEntry : IsEntry second
second-IsEntry = record { hash_fits = omega arith; ino_fits = omega arith; id_fits = omega arith }

decode_entry-encode_entry_example :
    decode_entry (encode_entry fls zeros 10 second first).0 10 first
    ≡ (second, (encode_entry fls zeros 10 second first).1)
decode_entry-encode_entry_example =
    decode_entry-encode_entry fls fls-IsFls zeros 10 second first second-IsEntry first-IsEntry

encode_entry-bounds_example :
    (2 ≤ (encode_entry fls zeros 10 second first).1)
    × ((encode_entry fls zeros 10 second first).1 ≤ 26)
    × ((i : ℕ) → (i < 10) ⊎ (10 + 26 ≤ i) → (encode_entry fls zeros 10 second first).0 i ≡ zeros i)
encode_entry-bounds_example = encode_entry-bounds fls fls-IsFls zeros 10 second first

sre_cmp-rank_example : sre_cmp first second ≡ compare (entry_rank first) (entry_rank second)
sre_cmp-rank_example = sre_cmp-rank first second first-IsEntry second-IsEntry

height_for_blk-Spells_example : (h : ℕ) × Bounds 4094 h × Spells 4094 (h - 1)
height_for_blk-Spells_example = height_for_blk-Spells 4094 (omega arith)
