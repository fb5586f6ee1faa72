-- ===== src/Srch/Entries.antt =====
-- encode_entry and decode_entry.
use scoutfs_kmod_dev.Base.{
  ℕ, ◌+◌, ◌*◌, ◌/◌, ◌%◌, ◌^◌, ◌<◌, ◌≤◌, ◌≡◌, ◌⊎◌, inl, inr, arith, refl, ap, ◌∙◌, List, [], ◌∷◌,
  min, u64_size, add64, sub64,
}
use scoutfs_kmod_dev.Srch.{
  SrchEntry, Memory, put_le, get_le, shift_sign, decode_u64, decode_diffs, add_diffs, decode_entry,
  encode_bytes, encode_u64, encode_diffs, encode_entry,
}
use scoutfs_kmod_dev.Srch.Memory.{put_le-other, get_le-put_le}
use scoutfs_kmod_dev.Srch.Encode.{IsFls, IsEntry, bytes_le, decode_u64-put_le}

add64-sub64 : (a b : ℕ) → a < u64_size → b < u64_size → add64 b (sub64 a b) ≡ a
unfolding add64 sub64
add64-sub64 a b h k = omega (arith, h, k)

sub64_fits : (a b : ℕ) → sub64 a b < u64_size
unfolding sub64
sub64_fits a b = omega arith

module _ (fls64 : ℕ → ℕ) (fls : IsFls fls64) (m : Memory) (buf : ℕ) where
  module _ (d0 d1 d2 : ℕ) (h0 : d0 < u64_size) (h1 : d1 < u64_size) (h2 : d2 < u64_size) where
    abbrev b0 : ℕ
    b0 = encode_bytes fls64 d0

    abbrev b1 : ℕ
    b1 = encode_bytes fls64 d1

    abbrev b2 : ℕ
    b2 = encode_bytes fls64 d2

    abbrev lengths : ℕ
    lengths = 0 + b0 * 2 ^ 0 + b1 * 2 ^ 4 + b2 * 2 ^ 8

    -- the memory after each difference, and after the lengths
    abbrev m1 : Memory
    m1 = put_le 8 m (buf + 2) (shift_sign d0)

    abbrev m2 : Memory
    m2 = put_le 8 m1 (buf + (2 + b0)) (shift_sign d1)

    abbrev m3 : Memory
    m3 = put_le 8 m2 (buf + (2 + b0 + b1)) (shift_sign d2)

    abbrev m4 : Memory
    m4 = put_le 2 m3 buf lengths

    small0 : b0 ≤ 8
    small0 = bytes_le fls64 fls d0 h0

    small1 : b1 ≤ 8
    small1 = bytes_le fls64 fls d1 h1

    small2 : b2 ≤ 8
    small2 = bytes_le fls64 fls d2 h2

    keeps3 : (i : ℕ) → buf + 2 ≤ i → m4 i ≡ m3 i
    keeps3 i p = put_le-other 2 m3 buf lengths i (inr (omega (arith, p)))

    keeps2 : (i : ℕ) → buf + 2 ≤ i → i < buf + (2 + b0 + b1) → m4 i ≡ m2 i
    keeps2 i p q = keeps3 i p ∙ put_le-other 8 m2 (buf + (2 + b0 + b1)) (shift_sign d2) i (inl q)

    keeps1 : (i : ℕ) → buf + 2 ≤ i → i < buf + (2 + b0) → m4 i ≡ m1 i
    keeps1 i p q =
        keeps2 i p (omega (arith, q)) ∙ put_le-other 8 m1 (buf + (2 + b0)) (shift_sign d1) i (inl q)

    read0 : decode_u64 m4 (buf + 2) b0 ≡ d0
    read0 =
        decode_u64-put_le fls64 fls d0 m m4 (buf + 2) h0 (λ i p q. keeps1 i p (omega (arith, q)))

    read1 : decode_u64 m4 (buf + (2 + b0)) b1 ≡ d1
    read1 =
        decode_u64-put_le fls64 fls d1 m1 m4 (buf + (2 + b0)) h1
          (λ i p q. keeps2 i (omega (arith, p)) (omega (arith, q)))

    read2 : decode_u64 m4 (buf + (2 + b0 + b1)) b2 ≡ d2
    read2 =
        decode_u64-put_le fls64 fls d2 m2 m4 (buf + (2 + b0 + b1)) h2
          (λ i p q. keeps3 i (omega (arith, p)))

    read_lengths : get_le 2 m4 buf ≡ lengths
    read_lengths =
        get_le-put_le 2 2 m3 buf lengths (omega arith) (omega (arith, small0, small1, small2))

    length0 : min 8 (lengths % 16) ≡ b0
    length0 = omega (arith, small0, small1, small2)

    length1 : min 8 (lengths / 16 % 16) ≡ b1
    length1 = omega (arith, small0, small1, small2)

    length2 : min 8 (lengths / 16 / 16 % 16) ≡ b2
    length2 = omega (arith, small0, small1, small2)

    decode_diffs-put_le :
        decode_diffs 3 m4 buf 2 (get_le 2 m4 buf) ≡ (d0 ∷ d1 ∷ d2 ∷ [], 2 + b0 + b1 + b2)
    unfolding decode_diffs
    decode_diffs-put_le = rw (read_lengths, length0, length1, length2, read0, read1, read2) refl

    -- every byte before the entry and from its longest end on is as it was
    outside : (i : ℕ) → (i < buf) ⊎ (buf + 26 ≤ i) → m4 i ≡ m i
    outside i (inl p) =
        put_le-other 2 m3 buf lengths i (inl p)
        ∙ put_le-other 8 m2 (buf + (2 + b0 + b1)) (shift_sign d2) i (inl (omega (arith, p)))
        ∙ put_le-other 8 m1 (buf + (2 + b0)) (shift_sign d1) i (inl (omega (arith, p)))
        ∙ put_le-other 8 m (buf + 2) (shift_sign d0) i (inl (omega (arith, p)))
    outside i (inr p) =
        put_le-other 2 m3 buf lengths i (inr (omega (arith, p)))
        ∙ put_le-other 8 m2 (buf + (2 + b0 + b1)) (shift_sign d2) i
            (inr (omega (arith, p, small0, small1)))
        ∙ put_le-other 8 m1 (buf + (2 + b0)) (shift_sign d1) i (inr (omega (arith, p, small0)))
        ∙ put_le-other 8 m (buf + 2) (shift_sign d0) i (inr (omega (arith, p)))

  module _ (sre prev : SrchEntry) where
    -- With an fls64 that counts bits, an entry whose fields are words is read back from the memory
    -- that encode_entry leaves, against the same entry before it, and decode_entry goes over as
    -- many bytes as encode_entry did.
    pub decode_entry-encode_entry :
        IsEntry sre
        → IsEntry prev
        → decode_entry (encode_entry fls64 m buf sre prev).0 buf prev
          ≡ (sre, (encode_entry fls64 m buf sre prev).1)
    unfolding decode_entry encode_entry encode_diffs encode_u64
    decode_entry-encode_entry h k =
        ap (λ (p : List ℕ × ℕ). (add_diffs prev p.0, p.1))
          (decode_diffs-put_le (sub64 sre.hash prev.hash) (sub64 sre.ino prev.ino)
            (sub64 sre.id prev.id) (sub64_fits sre.hash prev.hash) (sub64_fits sre.ino prev.ino)
            (sub64_fits sre.id prev.id))
        ∙ rw
            (
              add64-sub64 sre.hash prev.hash h.hash_fits k.hash_fits,
              add64-sub64 sre.ino prev.ino h.ino_fits k.ino_fits,
              add64-sub64 sre.id prev.id h.id_fits k.id_fits,
            )
            refl

    -- With an fls64 that counts bits, an encoded entry takes two to 26 bytes, and no byte before
    -- it or from 26 bytes after its start on is changed.
    pub encode_entry-bounds :
        (2 ≤ (encode_entry fls64 m buf sre prev).1)
        × ((encode_entry fls64 m buf sre prev).1 ≤ 26)
        × ((i : ℕ) → (i < buf) ⊎ (buf + 26 ≤ i) → (encode_entry fls64 m buf sre prev).0 i ≡ m i)
    unfolding encode_entry encode_diffs encode_u64
    encode_entry-bounds =
        let fits0 = sub64_fits sre.hash prev.hash in
        let fits1 = sub64_fits sre.ino prev.ino in
        let fits2 = sub64_fits sre.id prev.id in
        let small0 = bytes_le fls64 fls (sub64 sre.hash prev.hash) fits0 in
        let small1 = bytes_le fls64 fls (sub64 sre.ino prev.ino) fits1 in
        let small2 = bytes_le fls64 fls (sub64 sre.id prev.id) fits2 in
        (omega arith, omega (arith, small0, small1, small2), outside _ _ _ fits0 fits1 fits2)
