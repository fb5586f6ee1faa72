-- ===== src/Srch/Encode.antt =====
-- One word: its sign, its length, and its bytes in memory.
use scoutfs_kmod_dev.Base.{
  ℕ, ◌+◌, ◌*◌, ◌-◌, ◌/◌, ◌%◌, ◌^◌, ◌<◌, ◌≤◌, ◌≡◌, ◌==◌, if◌then◌else◌, ◌↔◌, arith, ◌∙◌, u64_size,
}
use scoutfs_kmod_dev.Srch.{
  SrchEntry, Memory, put_le, get_le, mask_bytes, shift_sign, decode_u64, encode_bytes,
}
use scoutfs_kmod_dev.Srch.Memory.{
  word_size, get_le-agree, get_le-put_le, up_to_8, mask_bytes-get_le,
}

-- fls64 hands back the least number of bits that a word fits in.
pub record IsFls (fls64 : ℕ → ℕ) : Type 0 where
  pub fits : (x n : ℕ) → x < u64_size → (fls64 x ≤ n) ↔ (x < 2 ^ n)

-- the fields are words
pub record IsEntry (e : SrchEntry) : Type 0 where
  pub hash_fits : e.hash < u64_size
  pub ino_fits : e.ino < u64_size
  pub id_fits : e.id < u64_size

shift_sign-lt : (d : ℕ) → d < u64_size → shift_sign d < u64_size
unfolding shift_sign
shift_sign-lt d h = ground (arith, h)

unshift_sign :
    (d : ℕ)
    → d < u64_size
    → (if shift_sign d % 2 == 1 then 2 ^ 64 - 1 - shift_sign d / 2 else shift_sign d / 2) ≡ d
unfolding shift_sign
unshift_sign d h = ground (arith, h)

module _ (fls64 : ℕ → ℕ) (fls : IsFls fls64) where
  -- A difference is encoded in eight bytes at most, and fits in the bytes that it is given.
  pub bytes_le : (d : ℕ) → d < u64_size → encode_bytes fls64 d ≤ 8
  unfolding encode_bytes
  bytes_le d h =
      let few = (fls.fits (shift_sign d) 64 (shift_sign-lt d h)).1 (shift_sign-lt d h) in
      omega (arith, few)

  bytes_fit : (d : ℕ) → d < u64_size → shift_sign d < word_size (encode_bytes fls64 d)
  unfolding encode_bytes
  bytes_fit d h =
      up_to_8 (λ b. fls64 (shift_sign d) ≤ 8 * b → shift_sign d < word_size b) (λ p. fit 0 p)
        (λ p. fit 8 p) (λ p. fit 16 p) (λ p. fit 24 p) (λ p. fit 32 p) (λ p. fit 40 p)
        (λ p. fit 48 p) (λ p. fit 56 p) (λ p. fit 64 p) (encode_bytes fls64 d) (bytes_le d h)
        (omega arith)
    where
      fit : (n : ℕ) → fls64 (shift_sign d) ≤ n → shift_sign d < 2 ^ n
      fit n p = (fls.fits (shift_sign d) n (shift_sign-lt d h)).0 p

  -- A difference is read back from memory whose bytes are those that were written for it.
  pub decode_u64-put_le :
      (d : ℕ) (m m' : Memory) (at : ℕ)
      → d < u64_size
      → ((i : ℕ) → at ≤ i → i < at + encode_bytes fls64 d → m' i ≡ put_le 8 m at (shift_sign d) i)
      → decode_u64 m' at (encode_bytes fls64 d) ≡ d
  unfolding decode_u64
  decode_u64-put_le d m m' at h same =
      let b = encode_bytes fls64 d in
      let read : mask_bytes b (get_le 8 m' at) ≡ shift_sign d =
        mask_bytes-get_le m' at b (bytes_le d h)
        ∙ get_le-agree b m' (put_le 8 m at (shift_sign d)) at same
        ∙ get_le-put_le b 8 m at (shift_sign d) (bytes_le d h) (bytes_fit d h) in
      rw read (unshift_sign d h)
