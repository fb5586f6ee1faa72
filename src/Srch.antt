-- ===== src/Srch.antt =====
-- srch.c: the encoding of the entries in the blocks of a search file. Each entry is written as the
-- differences of its fields from those of the entry before it, in as few bytes as they need.
pub mod Memory
pub mod Encode
pub mod Entries
pub mod Tree
pub mod Order
mod Tests
use scoutfs_kmod_dev.Base.{
  ℕ, zero, suc, ◌+◌, ◌*◌, ◌-◌, ◌/◌, ◌%◌, ◌^◌, ◌==◌, leb, if◌then◌else◌, List, [], ◌∷◌, add64, sub64,
  u8, min, compare, Ordering, Kernel, Option, none, some, done, bug, u64,
}
use scoutfs_kmod_dev.Key.{scoutfs_cmp, or_else}

-- struct scoutfs_srch_entry
pub record SrchEntry : Type 0 where
  pub hash : ℕ
  pub ino : ℕ
  pub id : ℕ

unfoldable pub sre_cmp : SrchEntry → SrchEntry → Ordering
sre_cmp a b =
    or_else (scoutfs_cmp a.hash b.hash) (or_else (scoutfs_cmp a.ino b.ino) (scoutfs_cmp a.id b.id))

-- the bytes of memory, each at its address
abbrev pub Memory : Type 0
Memory = ℕ → ℕ

-- put_unaligned_le64 and put_unaligned_le16, for 8 and 2 bytes
unfoldable pub put_le : ℕ → Memory → ℕ → ℕ → Memory
put_le zero m at val = m
put_le (suc n) m at val = put_le n (λ i. if i == at then u8 val else m i) (at + 1) (val / 2 ^ 8)

-- get_unaligned_le64 and get_unaligned_le16
unfoldable pub get_le : ℕ → Memory → ℕ → ℕ
get_le zero m at = 0
get_le (suc n) m at = u8 (m at) + 2 ^ 8 * get_le n m (at + 1)

-- The sign goes to the lowest bit; `^` with all ones is the complement.
unfoldable pub shift_sign : ℕ → ℕ
shift_sign val = if leb (2 ^ 63) val then 2 ^ 64 - 1 - 2 * val % 2 ^ 64 else 2 * val % 2 ^ 64

-- `& byte_masks[bytes]`
unfoldable pub mask_bytes : ℕ → ℕ → ℕ
mask_bytes bytes val = val % 2 ^ (8 * bytes)

unfoldable pub decode_u64 : Memory → ℕ → ℕ → ℕ
decode_u64 m at bytes =
    let val = mask_bytes bytes (get_le 8 m at) in
    if val % 2 == 1 then 2 ^ 64 - 1 - val / 2 else val / 2

-- The loop over the differences: `tot` bytes were decoded, `lengths` is what is left of the short.
unfoldable pub decode_diffs : ℕ → Memory → ℕ → ℕ → ℕ → List ℕ × ℕ
decode_diffs zero m buf tot lengths = ([], tot)
decode_diffs (suc n) m buf tot lengths =
    let bytes = min 8 (lengths % 16) in
    let (diffs, end) = decode_diffs n m buf (tot + bytes) (lengths / 16) in
    (decode_u64 m (buf + tot) bytes ∷ diffs, end)

-- the fields that the differences from `prev` spell
abbrev pub add_diffs : SrchEntry → List ℕ → SrchEntry
add_diffs prev (a ∷ b ∷ c ∷ _) = record {
  hash = add64 prev.hash a;
  ino = add64 prev.ino b;
  id = add64 prev.id c;
}
add_diffs prev _ = prev

unfoldable pub decode_entry : Memory → ℕ → SrchEntry → SrchEntry × ℕ
decode_entry m buf prev =
    let (diffs, tot) = decode_diffs 3 m buf 2 (get_le 2 m buf) in (add_diffs prev diffs, tot)

-- `fls64` is the kernel's: the number of bits of a word up to the highest that is set.
module _ (fls64 : ℕ → ℕ) where
  unfoldable pub encode_bytes : ℕ → ℕ
  encode_bytes val = (fls64 (shift_sign val) + 7) / 8

  unfoldable pub encode_u64 : Memory → ℕ → ℕ → Memory × ℕ
  encode_u64 m at val = (put_le 8 m at (shift_sign val), encode_bytes val)

  -- The loop over the differences: `tot` bytes were encoded, the next length goes `shift` bits up.
  unfoldable pub encode_diffs : Memory → ℕ → ℕ → ℕ → ℕ → List ℕ → Memory × ℕ × ℕ
  encode_diffs m buf tot lengths shift [] = (m, lengths, tot)
  encode_diffs m buf tot lengths shift (diff ∷ diffs) =
      let (m', bytes) = encode_u64 m (buf + tot) diff in
      encode_diffs m' buf (tot + bytes) (lengths + bytes * 2 ^ shift) (shift + 4) diffs

  unfoldable pub encode_entry : Memory → ℕ → SrchEntry → SrchEntry → Memory × ℕ
  encode_entry m buf sre prev =
      let diffs = sub64 sre.hash prev.hash ∷ sub64 sre.ino prev.ino ∷ sub64 sre.id prev.id ∷ [] in
      let (m', lengths, tot) = encode_diffs m buf 2 0 0 diffs in (put_le 2 m' buf lengths, tot)

-- SCOUTFS_SRCH_PARENT_REFS: references of 16 bytes fill a block of 64KiB after its header.
abbrev pub parent_refs : ℕ
parent_refs = 4094

-- the loop of calc_ref_ind over the levels; `ind` is the index that the last division left
unfoldable pub ref_ind_from : ℕ → ℕ → ℕ → ℕ
ref_ind_from zero blk ind = ind
ref_ind_from (suc n) blk ind = ref_ind_from n (blk / parent_refs) (blk % parent_refs)

unfoldable pub calc_ref_ind : ℕ → ℕ → Kernel ℕ
calc_ref_ind blk level = if leb 1 level then done (ref_ind_from level blk 0) else bug

-- the loop of height_for_blk, on fuel
unfoldable pub height_from : ℕ → ℕ → ℕ → ℕ → Option ℕ
height_from zero blk total hei = none
height_from (suc fuel) blk total hei =
    let rest = height_from fuel blk (u64 (total * parent_refs)) (u8 (hei + 1)) in
    if leb total blk then rest else some hei

unfoldable pub height_for_blk : ℕ → ℕ → Option ℕ
height_for_blk fuel blk = if blk == 0 then some 1 else height_from fuel blk parent_refs 2
