-- ===== src/Ext/Blocks.antt =====
-- What an extent says of a block: the device block and the flags that it gives it. Merging and
-- splitting keep that.
use scoutfs_kmod_dev.Base.{
  ℕ, ◌+◌, ◌-◌, ◌≤◌, ◌<◌, ◌≡◌, ◌≢◌, ◌↔◌, ◌⊎◌, ◌==◌, if◌then◌else◌, true, false, arith, add64, sub64,
  u64_size,
}
use scoutfs_kmod_dev.Ext.{
  Extent, ext_overlap, ext_inside, ext_map_add, ext_can_merge, ext_split_left, ext_split_right,
}

-- Nothing that is computed from the extent wraps.
pub record Fits (e : Extent) : Type 0 where
  pub some_blocks : 0 < e.len
  pub end_fits : e.start + e.len < u64_size
  pub map_fits : e.map + e.len < u64_size

abbrev pub Within : ℕ → ℕ → ℕ → Type 0
Within start len b = (start ≤ b) × (b < start + len)

abbrev pub block_at : Extent → ℕ → ℕ
block_at e b = if e.map == 0 then 0 else e.map + (b - e.start)

-- The extent gives block `b` the device block `m` (0 for none) and the flags `f`.
abbrev pub At : Extent → ℕ → ℕ → ℕ → Type 0
At e b m f = (e.start ≤ b) × (b < e.start + e.len) × (block_at e b ≡ m) × (e.flags ≡ f)

-- left and right as one extent
abbrev pub joined : Extent → Extent → Extent
joined left right = record left { len = left.len + right.len }

pub add64-joined :
    (left right : Extent)
    → Fits left
    → Fits right
    → ext_can_merge left right ≡ true
    → (add64 left.len right.len ≡ left.len + right.len)
      × (add64 right.len left.len ≡ left.len + right.len)
unfolding ext_can_merge add64
add64-joined left right hl hr e = ground arith

module _ (left right : Extent) (hl : Fits left) (hr : Fits right)
    (e : ext_can_merge left right ≡ true) where
  pub can_merge-adjacent : (left.start + left.len ≡ right.start) × (left.flags ≡ right.flags)
  unfolding ext_can_merge add64
  can_merge-adjacent = ground arith

  pub joined-Fits : Fits (joined left right)
  unfolding ext_can_merge add64
  joined-Fits = ground arith

  module _ (kind : (left.map == 0) ≡ (right.map == 0)) (b m f : ℕ) where
    can_merge-mapped :
        (left.map ≡ 0) × (right.map ≡ 0) ⊎ (left.map ≢ 0) × (right.map ≡ left.map + left.len)
    unfolding ext_can_merge add64
    can_merge-mapped = ground arith

    pub At-joined-left : At left b m f → At (joined left right) b m f
    At-joined-left a = ground arith

    pub At-joined-right : At right b m f → At (joined left right) b m f
    At-joined-right a = ground (arith, can_merge-adjacent, can_merge-mapped)

    pub At-joined : At (joined left right) b m f → At left b m f ⊎ At right b m f
    At-joined a = ground (arith, can_merge-adjacent, can_merge-mapped)

pub ext_overlap_iff :
    (e : Extent) (start len : ℕ)
    → Fits e
    → 0 < len
    → start + len < u64_size
    → (ext_overlap e start len ≡ false) ↔ ((e.start + e.len ≤ start) ⊎ (start + len ≤ e.start))
unfolding ext_overlap add64 sub64
ext_overlap_iff e start len h p q = ground arith

module _ (found : Extent) (start len : ℕ) (h : Fits found) (pos : 0 < len)
    (bound : start + len < u64_size) where
  pub ext_inside_iff :
      (ext_inside start len found ≡ true)
      ↔ ((found.start ≤ start) × (start + len ≤ found.start + found.len))
  unfolding ext_inside add64 sub64
  ext_inside_iff = ground arith

  module _ (inside : (found.start ≤ start) × (start + len ≤ found.start + found.len)) where
    abbrev left_rest : Extent
    left_rest = ext_split_left found start len

    abbrev right_rest : Extent
    right_rest = ext_split_right found start len

    pub split_left-Fits : left_rest.len ≢ 0 → Fits left_rest
    unfolding ext_split_left sub64
    split_left-Fits n = ground arith

    pub split_right-Fits : right_rest.len ≢ 0 → Fits right_rest
    unfolding ext_split_right sub64 add64 ext_map_add
    split_right-Fits n = ground arith

    pub At-split_left : (b m f : ℕ) → At left_rest b m f ↔ (At found b m f × (b < start))
    unfolding ext_split_left sub64
    At-split_left b m f = ground arith

    pub At-split_right : (b m f : ℕ) → At right_rest b m f ↔ (At found b m f × (start + len ≤ b))
    unfolding ext_split_right sub64 add64 ext_map_add
    At-split_right b m f = ground arith

-- scoutfs_ext_can_merge lets an unmapped extent, not empty, take in a mapped one that ends below
-- 2^64 and whose device block is the number of the unmapped extent's blocks, where the two are
-- adjacent and have the same flags: as one extent they give the mapped blocks no device block.
pub can_merge-mixed :
    (left right : Extent)
    → left.start + left.len ≡ right.start
    → right.start + right.len < u64_size
    → left.map ≡ 0
    → right.map ≡ left.len
    → 0 < left.len
    → left.flags ≡ right.flags
    → (ext_can_merge left right ≡ true)
      × ((b m f : ℕ) → At right b m f → (m ≢ 0) × At (joined left right) b 0 f)
unfolding ext_can_merge add64
can_merge-mixed left right e fits z m pos f = ground arith
